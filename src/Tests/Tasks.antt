-- ===== src/Tests/Tasks.antt =====
-- Interleavings of the engine's tasks on sample inputs.
use aicrypto_trader.Base.{◌≡◌, refl, false}
use aicrypto_trader.Float.{◌⊕◌}
use aicrypto_trader.Float.Fixed.{Fixed, fixed_float, Fixed-IsExact}
use aicrypto_trader.Bus.Messages.{long}
use aicrypto_trader.PaperTrade.Engine.Ledger.{view, entries}
use aicrypto_trader.PaperTrade.Engine.Invariant.{IsOrderly, realized}
use aicrypto_trader.PaperTrade.Engine.Tasks.{start_signal, start_mark}
use aicrypto_trader.PaperTrade.Engine.Tasks.System.{
  System, new_system, signals_after, marks_after, Reach, start, later, signal_arrives, mark_arrives,
}
use aicrypto_trader.PaperTrade.Engine.Tasks.Orderly.{interleaved-IsOrderly}
use aicrypto_trader.PaperTrade.Engine.Tasks.Lag.{uncounted, interleaved_daily_sum}
use aicrypto_trader.Tests.Samples.{cfg, no_json, fixed, btc, price}

-- A position is opened; while its handler waits, a mark price closes it, and that handler waits with
-- the profit that is not counted yet.
abbrev opened : System Fixed
opened =
    let y = new_system cfg in
    signals_after (start_signal cfg no_json (fixed 0) (btc long) y.engine) y

abbrev closing : System Fixed
closing = marks_after (start_mark cfg (fixed 1) (price 111) opened.engine) opened

closing-Reach : Reach cfg no_json false closing
closing-Reach =
    later (later start (signal_arrives (fixed 0) (btc long) refl))
      (mark_arrives (fixed 1) (price 111) refl)

interleaved-IsOrderly_example : IsOrderly 5 (view closing.engine)
interleaved-IsOrderly_example = interleaved-IsOrderly cfg no_json false closing closing-Reach

interleaved_daily_sum_example :
    closing.engine.daily_loss.cumulative_pnl ⊕ uncounted closing.signals ⊕ uncounted closing.marks
    ≡ realized (entries closing.engine.published)
interleaved_daily_sum_example =
    interleaved_daily_sum cfg no_json Fixed-IsExact closing closing-Reach
