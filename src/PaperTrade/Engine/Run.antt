-- ===== src/PaperTrade/Engine/Run.antt =====
-- `PaperTradeEngine.run`: the two handlers over the inputs in the order in which they arrive, and the
-- reset of the breakers by api/routes/circuit.py. An exception of a handler ends the run.
use aicrypto_trader.Base.{String, Option, List, [], ◌∷◌}
use aicrypto_trader.Float.{Float}
use aicrypto_trader.Config.{Settings}
use aicrypto_trader.Bus.Messages.{Signal, MarkPrice}
use aicrypto_trader.Risk.Breakers.{reset_daily_loss, reset_max_drawdown}
use aicrypto_trader.PaperTrade.Engine.{Engine, done, Step, and_then}
use aicrypto_trader.PaperTrade.Engine.Signals.{process_signal}
use aicrypto_trader.PaperTrade.Engine.Marks.{process_mark}

-- A signal and a mark price arrive at a time.
pub data Input (F : Type 0) : Type 0 where
  signal : F → Signal F → Input F
  mark : F → MarkPrice F → Input F
  reset : Input F

module _ {F : Type 0} ⦃fl : Float F⦄ where
  -- `reset` of api/routes/circuit.py
  unfoldable pub reset_breakers : Engine F → Engine F
  reset_breakers e = record e {
    daily_loss = reset_daily_loss e.daily_loss;
    max_dd = reset_max_drawdown e.max_dd;
  }

  unfoldable pub handle : Settings F → (String → Option F) → Input F → Engine F → Step F
  handle cfg json_entry (signal now s) e = process_signal cfg json_entry now s e
  handle cfg json_entry (mark now m) e = process_mark cfg now m e
  handle cfg json_entry reset e = (done, reset_breakers e)

  unfoldable pub run : Settings F → (String → Option F) → List (Input F) → Engine F → Step F
  run cfg json_entry [] e = (done, e)
  run cfg json_entry (i ∷ is) e = and_then (handle cfg json_entry i e) (run cfg json_entry is)
