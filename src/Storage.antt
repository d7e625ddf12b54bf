-- ===== src/Storage.antt =====
-- backend/src/cryptoswarm/storage/subscriber.py: the trades and trips that go to the database.
-- The database is a parameter: whether a write ends without an exception. An exception is logged, and
-- the rest of its message is skipped. Messages are read from their own topics in the order in which
-- they were published; both logs have the latest first. Market data are in Feed/Stored.
use aicrypto_trader.Base.{String, Bool, List, [], ◌∷◌, if◌then◌else◌}
use aicrypto_trader.Int.{ℤ}
use aicrypto_trader.Bus.Messages.{
  Side, ExitReason, BreakerName, TradeExecuted, TradeClosed, Publication, risk_veto, trade_executed,
  trade_closed, position_update, circuit_tripped,
}

-- The arguments of `insert_trade_open`.
pub record OpenRow (F : Type 0) : Type 0 where
  pub correlation_id : String
  pub symbol : String
  pub side : Side
  pub qty : F
  pub entry_price : F
  pub leverage : ℤ
  pub sl : F
  pub tp : F
  pub fees : F

-- The action of `insert_rl_tuple`.
pub record RlAction (F : Type 0) : Type 0 where
  pub symbol : String
  pub side : Side
  pub qty : F
  pub entry_price : F
  pub leverage : ℤ
  pub sl : F
  pub tp : F

-- The arguments of `update_trade_close`.
pub record CloseRow (F : Type 0) : Type 0 where
  pub correlation_id : String
  pub exit_price : F
  pub exit_reason : ExitReason
  pub realized_pnl : F
  pub funding_paid : F
  pub exit_fees : F

pub data Write (F : Type 0) : Type 0 where
  insert_trade_open : OpenRow F → Write F
  insert_rl_tuple : RlAction F → Write F
  update_trade_close : CloseRow F → Write F
  insert_circuit_event : BreakerName → F → F → Write F

module _ {F : Type 0} where
  abbrev pub open_row : TradeExecuted F → OpenRow F
  open_row t = record {
    correlation_id = t.original_correlation_id;
    symbol = t.symbol;
    side = t.side;
    qty = t.qty;
    entry_price = t.entry_price;
    leverage = t.leverage;
    sl = t.sl;
    tp = t.tp;
    fees = t.fees;
  }

  abbrev pub rl_action : TradeExecuted F → RlAction F
  rl_action t = record {
    symbol = t.symbol;
    side = t.side;
    qty = t.qty;
    entry_price = t.entry_price;
    leverage = t.leverage;
    sl = t.sl;
    tp = t.tp;
  }

  abbrev pub close_row : TradeClosed F → CloseRow F
  close_row t = record {
    correlation_id = t.correlation_id;
    exit_price = t.exit_price;
    exit_reason = t.exit_reason;
    realized_pnl = t.realized_pnl;
    funding_paid = t.funding_paid;
    exit_fees = t.exit_fees;
  }

  -- The writes of a message, in their order.
  unfoldable pub writes_of : Publication F → List (Write F)
  writes_of (trade_executed t) = insert_trade_open (open_row t) ∷ insert_rl_tuple (rl_action t) ∷ []
  writes_of (trade_closed t) = update_trade_close (close_row t) ∷ []
  writes_of (circuit_tripped c) = insert_circuit_event c.breaker_name c.value c.threshold ∷ []
  writes_of (risk_veto v) = []
  writes_of (position_update u) = []

  -- The writes until one fails, put on the log.
  unfoldable pub attempt : (Write F → Bool) → List (Write F) → List (Write F) → List (Write F)
  attempt succeeds [] log = log
  attempt succeeds (w ∷ ws) log =
      let rest = attempt succeeds ws (w ∷ log) in if succeeds w then rest else log

  -- `_consume_trades` and `_consume_circuits` on all that was published.
  unfoldable pub consume : (Write F → Bool) → List (Publication F) → List (Write F)
  consume succeeds [] = []
  consume succeeds (p ∷ ps) = attempt succeeds (writes_of p) (consume succeeds ps)
