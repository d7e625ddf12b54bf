-- ===== src/PaperTrade/Engine/Signals.antt =====
-- `_process_signal` of papertrade/engine.py.
-- `json_entry` stands for `float(json.loads(text)["entry"])` on a text that begins with a brace;
-- `none` is any exception of it.
use aicrypto_trader.Base.{String, Option, none, some, length, if◌then◌else◌}
use text.Mathlib.Text.{starts_with}
use aicrypto_trader.Dict.{Dict, get}
use aicrypto_trader.Float.{Float, ◌⊕◌, ◌⊘◌, eq, nought, literal}
use aicrypto_trader.Config.{Settings}
use aicrypto_trader.Bus.Messages.{
  Signal, side_eq, breaker_tripped, daily_loss_or_drawdown, ExitReason, VetoReason, BreakerName,
  risk_veto, trade_executed,
}
use aicrypto_trader.Risk.Guards.{allowed, refused, check}
use aicrypto_trader.PaperTrade.Result.{Result, ok, err, ◌>>=◌}
use aicrypto_trader.PaperTrade.Math.{calc_qty, calc_isolated_margin, calc_liq_price, calc_entry_fee}
use aicrypto_trader.PaperTrade.Account.{OpenPosition, equity, open_position}
use aicrypto_trader.PaperTrade.Engine.{
  Engine, done, raised, Step, and_then, publish, is_tripped, publish_position_update,
  close_position,
}

module _ {F : Type 0} ⦃fl : Float F⦄ where
  unfoldable pub embedded_entry : (String → Option F) → String → Option F
  embedded_entry json_entry reasoning =
      if starts_with reasoning "{" then json_entry reasoning else none

  -- `self._last_marks.get(symbol) or (signal.sl + signal.tp) / 2`: zero counts as missing.
  unfoldable pub fallback_entry : Dict F → Signal F → F
  fallback_entry last_marks signal =
      let midpoint = (signal.sl ⊕ signal.tp) ⊘ literal 2 0 in
      elim (get last_marks signal.symbol) [
        | none ↦ midpoint
        | some mark ↦ if eq mark nought then midpoint else mark
      ]

  unfoldable pub entry_price_of : (String → Option F) → Dict F → Signal F → F
  entry_price_of json_entry last_marks signal = elim (embedded_entry json_entry signal.reasoning) [
    | none ↦ fallback_entry last_marks signal
    | some price ↦ price
  ]

  -- The position that a fill opens at the time `now`.
  unfoldable pub new_position : Settings F → F → Signal F → F → Result (OpenPosition F)
  new_position cfg now signal entry_price = do
    qty ← calc_qty signal.size_usd entry_price
    margin ← calc_isolated_margin signal.size_usd signal.leverage
    liq ← calc_liq_price entry_price signal.side signal.leverage cfg.fees.maintenance_margin_rate
    ok (record {
      symbol = signal.symbol;
      side = signal.side;
      qty = qty;
      entry_price = entry_price;
      leverage = signal.leverage;
      sl = signal.sl;
      tp = signal.tp;
      isolated_margin = margin;
      liq_price = liq;
      fees = calc_entry_fee signal.size_usd cfg.fees.taker_rate;
      correlation_id = signal.correlation_id;
      mark_price = nought;
      funding_paid = nought;
      opened_at = now;
    })

  -- The position is opened and the trade published.
  abbrev pub execute_fill : Signal F → OpenPosition F → Engine F → Engine F
  execute_fill signal p e =
      publish
        (trade_executed (record {
          original_correlation_id = signal.correlation_id;
          symbol = signal.symbol;
          side = signal.side;
          qty = p.qty;
          entry_price = p.entry_price;
          leverage = signal.leverage;
          sl = signal.sl;
          tp = signal.tp;
          fees = p.fees;
        }))
        (record e { account = open_position e.account p })

  unfoldable pub book_fill : Signal F → OpenPosition F → Engine F → Engine F
  book_fill signal p e = publish_position_update signal.symbol (execute_fill signal p e)

  -- Step 4: the fill.
  unfoldable pub fill : Settings F → (String → Option F) → F → Signal F → Engine F → Step F
  fill cfg json_entry now signal e =
      elim (new_position cfg now signal (entry_price_of json_entry e.last_marks signal)) [
        | ok p ↦ (done, book_fill signal p e)
        | err x ↦ (raised x, e)
      ]

  abbrev pub publish_veto : Signal F → VetoReason F → BreakerName → Engine F → Engine F
  publish_veto signal reason name e =
      publish
        (risk_veto (record {
          original_correlation_id = signal.correlation_id;
          reason = reason;
          breaker_name = name;
        }))
        e

  -- Step 3: the guards.
  unfoldable pub pass_guards : Settings F → (String → Option F) → F → Signal F → Engine F → Step F
  pass_guards cfg json_entry now signal e =
      elim (check cfg (length e.account.open_positions) (equity e.account) signal) [
        | allowed ↦ fill cfg json_entry now signal e
        | refused reason name ↦ (done, publish_veto signal reason name e)
      ]

  -- Step 2: the circuit breakers.
  unfoldable pub pass_breakers : Settings F → (String → Option F) → F → Signal F → Engine F → Step F
  pass_breakers cfg json_entry now signal e =
      if is_tripped e
      then (done, publish_veto signal breaker_tripped daily_loss_or_drawdown e)
      else pass_guards cfg json_entry now signal e

  abbrev pub mark_or : Option F → F → F
  mark_or none price = price
  mark_or (some mark) price = mark

  -- Step 1, at an open position of the symbol: a signal of its side is skipped, one of the other
  -- side closes it first.
  unfoldable pub flip :
      Settings F → (String → Option F) → F → Signal F → OpenPosition F → Engine F → Step F
  flip cfg json_entry now signal existing e =
      if side_eq existing.side signal.side
      then (done, e)
      else and_then
          (close_position cfg signal.symbol
            (mark_or (get e.last_marks signal.symbol) existing.entry_price)
            ExitReason.direction_flip e)
          (pass_breakers cfg json_entry now signal)

  unfoldable pub process_signal :
      Settings F → (String → Option F) → F → Signal F → Engine F → Step F
  process_signal cfg json_entry now signal e = elim (get e.account.open_positions signal.symbol) [
    | none ↦ pass_breakers cfg json_entry now signal e
    | some existing ↦ flip cfg json_entry now signal existing e
  ]
