-- ===== src/PaperTrade/Engine.antt =====
-- backend/src/cryptoswarm/papertrade/engine.py: the paper trade engine.
-- A handler takes the engine and returns how it ended and the engine as it left it: what was written
-- before an exception stays written. Here each handler runs to its end before the next input; Tasks
-- has the interleavings. The bus accepts every message, and what was published is kept, the latest
-- first.
pub mod Signals
pub mod Marks
pub mod Run
pub mod Tasks
pub mod Ledger
pub mod Refines
pub mod Invariant
pub mod Books
pub mod Safety
pub mod Exits
pub mod Handlers
pub mod Entry
use aicrypto_trader.Base.{
  ℕ, ◌-◌, ◌*◌, String, Option, none, some, Bool, true, false, ◌||◌, List, [], ◌∷◌, ltb, length,
  if◌then◌else◌,
}
use text.Mathlib.Text.{starts_with}
use aicrypto_trader.Dict.{Dict, get, put}
use aicrypto_trader.Float.{Float, ◌⊕◌, ◌⊗◌, ◌⊘◌, le, eq, nought, literal}
use aicrypto_trader.Config.{Settings}
use aicrypto_trader.Bus.Messages.{
  Side, long, short, side_eq, MarkPrice, Signal, breaker_tripped, daily_loss,
  daily_loss_or_drawdown, BreakerName, VetoReason, ExitReason, CloseReason, close_reason_of,
  Publication, risk_veto, trade_executed, trade_closed, position_update, circuit_tripped,
}
use aicrypto_trader.Risk.Breakers.{
  DailyLossBreaker, MaxDrawdownBreaker, new_daily_loss, new_max_drawdown, update_pnl, update_equity,
  reset_daily_loss, reset_max_drawdown,
}
use aicrypto_trader.Risk.Guards.{GuardResult, allowed, refused, check}
use aicrypto_trader.PaperTrade.Result.{Fault, key_error, validation_error, Result, ok, err, ◌>>=◌}
use aicrypto_trader.PaperTrade.Math.{
  calc_qty, calc_isolated_margin, calc_liq_price, calc_entry_fee, calc_exit_fee,
}
use aicrypto_trader.PaperTrade.Account.{
  OpenPosition, Account, new_account, unrealized_pnl, equity, open_position, close, update_mark,
}

-- `_MAX_HOLD_SECONDS`
abbrev pub max_hold_seconds : {F : Type 0} ⦃fl : Float F⦄ → F
max_hold_seconds = literal 21_600 0

pub record Engine (F : Type 0) : Type 0 where
  pub account : Account F
  pub daily_loss : DailyLossBreaker F
  pub max_dd : MaxDrawdownBreaker F
  pub last_marks : Dict F
  pub published : List (Publication F)

-- A handler returns nothing, or raises.
pub data Outcome : Type 0 where
  done : Outcome
  raised : Fault → Outcome

abbrev pub Step : Type 0 → Type 0
Step F = Outcome × Engine F

-- What follows an awaited call, unless the call raises.
abbrev pub and_then : {F : Type 0} → Step F → (Engine F → Step F) → Step F
and_then (done, e) k = k e
and_then (raised x, e) k = (raised x, e)

abbrev pub publish : {F : Type 0} → Publication F → Engine F → Engine F
publish m e = record e { published = m ∷ e.published }

module _ {F : Type 0} ⦃fl : Float F⦄ where
  -- `PaperTradeEngine.__init__`
  abbrev pub new_engine : Settings F → Engine F
  new_engine cfg = record {
    account = new_account cfg.risk.starting_balance_usd;
    daily_loss = new_daily_loss cfg.risk.starting_balance_usd cfg.risk.daily_loss_pct;
    max_dd = new_max_drawdown cfg.risk.max_drawdown_pct;
    last_marks = [];
    published = [];
  }

  abbrev pub is_tripped : Engine F → Bool
  is_tripped e = e.daily_loss.state.tripped || e.max_dd.state.tripped

  -- `_publish_position_update`
  unfoldable pub publish_position_update : String → Engine F → Engine F
  publish_position_update symbol e = elim (get e.account.open_positions symbol) [
    | none ↦ e
    | some p ↦
        publish
          (position_update (record {
            symbol = symbol;
            side = p.side;
            qty = p.qty;
            entry_price = p.entry_price;
            mark_price = p.mark_price;
            unrealized_pnl = unrealized_pnl p;
            isolated_margin = p.isolated_margin;
            liq_price = p.liq_price;
            is_closed = false;
            close_reason = none;
          }))
          e
  ]

  -- `_close_position` after `Account.close`, up to its first publication.
  abbrev pub publish_closure :
      OpenPosition F → String → F → ExitReason → F → F → Engine F → Engine F
  publish_closure p symbol exit_price reason exit_fee net_pnl e =
      publish
        (trade_closed (record {
          correlation_id = p.correlation_id;
          symbol = symbol;
          side = p.side;
          exit_price = exit_price;
          exit_reason = reason;
          realized_pnl = net_pnl;
          funding_paid = p.funding_paid;
          exit_fees = exit_fee;
        }))
        e

  abbrev pub count_closure : F → Engine F → Engine F
  count_closure net_pnl e = record e {
    daily_loss = update_pnl e.daily_loss net_pnl;
    max_dd = update_equity e.max_dd (equity e.account);
  }

  abbrev pub publish_trip : Settings F → Engine F → Engine F
  publish_trip cfg e =
      publish
        (circuit_tripped (record {
          breaker_name = BreakerName.daily_loss;
          value = e.daily_loss.state.last_value;
          threshold = cfg.risk.starting_balance_usd ⊗ cfg.risk.daily_loss_pct;
        }))
        e

  -- `_close_position` after `Account.close`: the closure is published, the breakers are updated.
  unfoldable pub book_closure :
      Settings F → OpenPosition F → String → F → ExitReason → F → F → Engine F → Engine F
  book_closure cfg p symbol exit_price reason exit_fee net_pnl e =
      let updated =
        count_closure net_pnl (publish_closure p symbol exit_price reason exit_fee net_pnl e) in
      if updated.daily_loss.state.tripped then publish_trip cfg updated else updated

  -- The last `PositionUpdate` of `_close_position`. Its construction validates the reason.
  unfoldable pub announce_closure : OpenPosition F → String → F → ExitReason → Engine F → Step F
  announce_closure p symbol exit_price reason e = elim (close_reason_of reason) [
    | none ↦ (raised validation_error, e)
    | some r ↦ (
      done,
      publish
          (position_update (record {
            symbol = symbol;
            side = p.side;
            qty = p.qty;
            entry_price = p.entry_price;
            mark_price = exit_price;
            unrealized_pnl = nought;
            isolated_margin = nought;
            liq_price = p.liq_price;
            is_closed = true;
            close_reason = some r;
          }))
          e,
    )
  ]

  -- `_close_position` of the position `p`, which is the one under `symbol`.
  unfoldable pub close_found :
      Settings F → OpenPosition F → String → F → ExitReason → Engine F → Step F
  close_found cfg p symbol exit_price reason e =
      let exit_fee = calc_exit_fee p.qty exit_price cfg.fees.taker_rate in
      elim (close e.account symbol exit_price exit_fee) [
        | none ↦ (raised key_error, e)
        | some (net_pnl, account) ↦ announce_closure p symbol exit_price reason (
            book_closure cfg p symbol exit_price reason exit_fee net_pnl
              (record e { account = account }))
      ]

  -- `_close_position`
  unfoldable pub close_position : Settings F → String → F → ExitReason → Engine F → Step F
  close_position cfg symbol exit_price reason e = elim (get e.account.open_positions symbol) [
    | none ↦ (raised key_error, e)
    | some p ↦ close_found cfg p symbol exit_price reason e
  ]
