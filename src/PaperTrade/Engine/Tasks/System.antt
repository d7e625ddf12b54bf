-- ===== src/PaperTrade/Engine/Tasks/System.antt =====
-- The tasks of papertrade/engine.py in every order in which the event loop can run them.
use aicrypto_trader.Base.{String, Option, Bool, true, ◌≡◌}
use aicrypto_trader.Float.{Float}
use aicrypto_trader.Config.{Settings}
use aicrypto_trader.Bus.Messages.{Signal, MarkPrice}
use aicrypto_trader.PaperTrade.Engine.{Engine, new_engine}
use aicrypto_trader.PaperTrade.Engine.Run.{reset_breakers}
use aicrypto_trader.PaperTrade.Engine.Tasks.{Task, idle, Segment, start_signal, start_mark, resume}

-- The engine, the task of `_handle_signals` and the task of `_handle_mark_prices`.
pub record System (F : Type 0) : Type 0 where
  pub engine : Engine F
  pub signals : Task F
  pub marks : Task F

module _ {F : Type 0} ⦃fl : Float F⦄ where
  abbrev pub signals_after : Segment F → System F → System F
  signals_after (t, e) y = record y { engine = e; signals = t }

  abbrev pub marks_after : Segment F → System F → System F
  marks_after (t, e) y = record y { engine = e; marks = t }

  abbrev pub new_system : Settings F → System F
  new_system cfg = record { engine = new_engine cfg; signals = idle; marks = idle }

  module _ (cfg : Settings F) (json_entry : String → Option F) (resettable : Bool) where
    -- One turn of the loop. A task takes its next message when it is idle. The breakers are reset
    -- only where `resettable` says that somebody may.
    pub data Turn (y : System F) : System F → Type 0 where
      signal_arrives :
          (now : F) (s : Signal F)
          → y.signals ≡ idle
          → Turn y (signals_after (start_signal cfg json_entry now s y.engine) y)
      mark_arrives :
          (now : F) (m : MarkPrice F)
          → y.marks ≡ idle
          → Turn y (marks_after (start_mark cfg now m y.engine) y)
      signals_resume :
          (now : F) → Turn y (signals_after (resume cfg json_entry now y.signals y.engine) y)
      marks_resume : (now : F) → Turn y (marks_after (resume cfg json_entry now y.marks y.engine) y)
      resets : resettable ≡ true → Turn y (record y { engine = reset_breakers y.engine })

    pub data Reach : System F → Type 0 where
      start : Reach (new_system cfg)
      later : {y z : System F} → Reach y → Turn y z → Reach z
