-- ===== src/Agents/Portfolio/Mirror/Runs.antt =====
-- The portfolio agent and the engine over a whole run.
use aicrypto_trader.Base.{String, ◌≡◌, refl, Option, List, [], ◌∷◌}
use aicrypto_trader.Dict.{get}
use aicrypto_trader.Float.{Float}
use aicrypto_trader.Config.{Settings}
use aicrypto_trader.PaperTrade.Engine.{Engine, done, raised, Step, and_then, new_engine}
use aicrypto_trader.PaperTrade.Engine.Run.{Input, signal, mark, reset, handle, run, reset_breakers}
use aicrypto_trader.Agents.Portfolio.Mirror.{IsMirrored}
use aicrypto_trader.Agents.Portfolio.Mirror.Handlers.{
  process_signal-IsMirrored, process_mark-IsMirrored,
}

module _ {F : Type 0} ⦃fl : Float F⦄ (cfg : Settings F) (json_entry : String → Option F) where
  handle-IsMirrored :
      (i : Input F) (e : Engine F)
      → IsMirrored e
      → (handle cfg json_entry i e).0 ≡ done
      → IsMirrored (handle cfg json_entry i e).1
  unfolding handle reset_breakers
  handle-IsMirrored (signal now s) e all finished =
      process_signal-IsMirrored cfg json_entry now s e all finished
  handle-IsMirrored (mark now m) e all finished = process_mark-IsMirrored cfg now m e all finished
  handle-IsMirrored reset e all finished = all

  run-IsMirrored :
      (is : List (Input F)) (e : Engine F)
      → IsMirrored e
      → (run cfg json_entry is e).0 ≡ done
      → IsMirrored (run cfg json_entry is e).1
  unfolding run
  run-IsMirrored [] e all finished = all
  run-IsMirrored (i ∷ is) e all finished =
      go (handle cfg json_entry i e) (handle-IsMirrored i e all) (run-IsMirrored is) finished
    where
      go :
          (r : Step F)
          → (r.0 ≡ done → IsMirrored r.1)
          → ((e' : Engine F)
              → IsMirrored e'
              → (run cfg json_entry is e').0 ≡ done
              → IsMirrored (run cfg json_entry is e').1)
          → (and_then r (run cfg json_entry is)).0 ≡ done
          → IsMirrored (and_then r (run cfg json_entry is)).1
      go (done, e') here rest end = rest e' (here refl) end
      go (raised x, e') here rest end = absurd (cc end)

  -- After every run of a new engine in which no handler raises, a portfolio agent that has read all
  -- the published position updates holds exactly the engine's open positions, each with its side,
  -- quantity, entry price and latest unrealized profit.
  pub mirror_after_run :
      (is : List (Input F))
      → (run cfg json_entry is (new_engine cfg)).0 ≡ done
      → IsMirrored (run cfg json_entry is (new_engine cfg)).1
  unfolding get
  mirror_after_run is finished = run-IsMirrored is (new_engine cfg) (λ k. refl) finished
