-- ===== src/Bus/Messages.antt =====
-- backend/src/cryptoswarm/bus/messages.py: the messages on the bus.
-- The default `correlation_id` (a random uuid), `ts` and `schema_version` of `BaseMsg` are left out;
-- a correlation id that the program sets or matches on is a field.
use aicrypto_trader.Base.{ℕ, String, Bool, true, false, Option, none, some}
use aicrypto_trader.Int.{ℤ}

-- Literal["LONG", "SHORT"]
pub data Side : Type 0 where
  long short : Side

abbrev pub side_eq : Side → Side → Bool
side_eq long long = true
side_eq short short = true
side_eq _ _ = false

pub record MarkPrice (F : Type 0) : Type 0 where
  pub symbol : String
  pub mark_price : F
  pub index_price : F

pub record Signal (F : Type 0) : Type 0 where
  pub correlation_id : String
  pub symbol : String
  pub side : Side
  pub size_usd : F
  pub sl : F
  pub tp : F
  pub leverage : ℤ
  pub reasoning : String

-- The texts of `RiskVeto.reason`, each with the values that are formatted into it.
pub data VetoReason (F : Type 0) : Type 0 where
  breaker_tripped : VetoReason F
  not_configured : String → VetoReason F
  positions_full : ℕ → VetoReason F
  size_exceeds : F → F → VetoReason F
  leverage_exceeds : ℤ → ℕ → VetoReason F
  sl_tp_not_positive : VetoReason F

pub data BreakerName : Type 0 where
  daily_loss max_drawdown daily_loss_or_drawdown : BreakerName
  symbol_guard concurrent_positions_guard position_size_guard leverage_guard sl_tp_guard :
      BreakerName

pub record RiskVeto (F : Type 0) : Type 0 where
  pub original_correlation_id : String
  pub reason : VetoReason F
  pub breaker_name : BreakerName

pub record TradeExecuted (F : Type 0) : Type 0 where
  pub original_correlation_id : String
  pub symbol : String
  pub side : Side
  pub qty : F
  pub entry_price : F
  pub leverage : ℤ
  pub sl : F
  pub tp : F
  pub fees : F

-- `TradeClosed.exit_reason`
pub data ExitReason : Type 0 where
  sl tp liq manual max_hold direction_flip : ExitReason

-- Literal["sl", "tp", "liq", "manual"], the values that `PositionUpdate.close_reason` admits
pub data CloseReason : Type 0 where
  sl tp liq manual : CloseReason

-- The validation of `close_reason`: `none` is a `ValidationError`.
unfoldable pub close_reason_of : ExitReason → Option CloseReason
close_reason_of ExitReason.sl = some CloseReason.sl
close_reason_of ExitReason.tp = some CloseReason.tp
close_reason_of ExitReason.liq = some CloseReason.liq
close_reason_of ExitReason.manual = some CloseReason.manual
close_reason_of ExitReason.max_hold = none
close_reason_of ExitReason.direction_flip = none

pub record TradeClosed (F : Type 0) : Type 0 where
  pub correlation_id : String
  pub symbol : String
  pub side : Side
  pub exit_price : F
  pub exit_reason : ExitReason
  pub realized_pnl : F
  pub funding_paid : F
  pub exit_fees : F

pub record PositionUpdate (F : Type 0) : Type 0 where
  pub symbol : String
  pub side : Side
  pub qty : F
  pub entry_price : F
  pub mark_price : F
  pub unrealized_pnl : F
  pub isolated_margin : F
  pub liq_price : F
  pub is_closed : Bool
  pub close_reason : Option CloseReason

pub record CircuitTripped (F : Type 0) : Type 0 where
  pub breaker_name : BreakerName
  pub value : F
  pub threshold : F

-- What the paper trade engine publishes, a constructor for each topic.
pub data Publication (F : Type 0) : Type 0 where
  risk_veto : RiskVeto F → Publication F
  trade_executed : TradeExecuted F → Publication F
  trade_closed : TradeClosed F → Publication F
  position_update : PositionUpdate F → Publication F
  circuit_tripped : CircuitTripped F → Publication F
