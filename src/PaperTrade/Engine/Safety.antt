-- ===== src/PaperTrade/Engine/Safety.antt =====
-- What holds of every run of the engine from its start, whatever signals and marks arrive.
use aicrypto_trader.Base.{ℕ, String, ◌≡◌, refl, ◌∙◌, Option, true, List, [], ◌∷◌, All, arith}
use aicrypto_trader.Dict.{get}
use aicrypto_trader.Float.{Float, IsExact, ◌⊕◌}
use aicrypto_trader.Config.{Settings}
use aicrypto_trader.PaperTrade.Account.Cash.{reserved}
use aicrypto_trader.PaperTrade.Engine.{Engine, done, raised, Step, and_then, new_engine, is_tripped}
use aicrypto_trader.PaperTrade.Engine.Run.{Input, signal, mark, reset, handle, run, reset_breakers}
use aicrypto_trader.PaperTrade.Engine.Ledger.{
  View, view, entries, Move, closes, opens, marks, Moves, here, next, Moves-trans,
}
use aicrypto_trader.PaperTrade.Engine.Refines.{IsMarket, handle-Moves}
use aicrypto_trader.PaperTrade.Engine.Invariant.{openings, realized, IsOrderly, Moves-IsOrderly}
use aicrypto_trader.PaperTrade.Engine.Books.{IsBalanced, Moves-IsBalanced, Moves-IsSummed}

module _ {F : Type 0} ⦃fl : Float F⦄ (cfg : Settings F) (json_entry : String → Option F) where
  abbrev cap : ℕ
  cap = cfg.risk.max_concurrent_positions

  -- A property of the engine that every handler keeps holds after every run.
  run_keeps :
      (P : Engine F → Type 0)
      → ((i : Input F) (e : Engine F) → P e → P (handle cfg json_entry i e).1)
      → (is : List (Input F)) (e : Engine F) → P e
      → P (run cfg json_entry is e).1
  unfolding run
  run_keeps P keep [] e h = h
  run_keeps P keep (i ∷ is) e h = go (handle cfg json_entry i e) (keep i e h) (run_keeps P keep is)
    where
      go :
          (r : Step F)
          → P r.1
          → ((e' : Engine F) → P e' → P (run cfg json_entry is e').1)
          → P (and_then r (run cfg json_entry is)).1
      go (done, e') p rest = rest e' p
      go (raised x, e') p rest = p

  pub handle-IsOrderly :
      (i : Input F) (e : Engine F)
      → IsOrderly cap (view e)
      → IsOrderly cap (view (handle cfg json_entry i e).1)
  unfolding handle reset_breakers
  handle-IsOrderly (signal now s) e o =
      Moves-IsOrderly (handle-Moves cfg json_entry (signal now s) e tt) o
  handle-IsOrderly (mark now m) e o =
      Moves-IsOrderly (handle-Moves cfg json_entry (mark now m) e tt) o
  handle-IsOrderly reset e o = record {
    unique = o.unique;
    capped = o.capped;
    unfunded = o.unfunded;
    alternates = o.alternates;
  }

  pub new_engine-IsOrderly : IsOrderly cap (view (new_engine cfg))
  unfolding get
  new_engine-IsOrderly = record {
    unique = tt;
    capped = omega arith;
    unfunded = λ k p h. absurd (cc h);
    alternates = λ k. omega arith;
  }

  -- After any run of a new engine, whatever signals, mark prices and resets arrive and however the
  -- run ends: no symbol has two open positions, at most the configured maximum are open, and for each
  -- symbol the trades that were published as executed are those published as closed, plus one
  -- exactly if it has an open position.
  pub run-IsOrderly :
      (is : List (Input F)) → IsOrderly cap (view (run cfg json_entry is (new_engine cfg)).1)
  run-IsOrderly is =
      run_keeps (λ e. IsOrderly cap (view e)) handle-IsOrderly is (new_engine cfg)
        new_engine-IsOrderly

  module _ (ex : IsExact F) where
    abbrev start : F
    start = cfg.risk.starting_balance_usd

    abbrev IsAccounted : Engine F → Type 0
    IsAccounted e = IsOrderly cap (view e) × IsBalanced ex start (view e)

    handle-IsAccounted :
        (i : Input F) (e : Engine F) → IsAccounted e → IsAccounted (handle cfg json_entry i e).1
    unfolding handle reset_breakers
    handle-IsAccounted (signal now s) e (o, b) =
        let moves = handle-Moves cfg json_entry (signal now s) e tt in
        (Moves-IsOrderly moves o, Moves-IsBalanced ex start moves o b)
    handle-IsAccounted (mark now m) e (o, b) =
        let moves = handle-Moves cfg json_entry (mark now m) e tt in
        (Moves-IsOrderly moves o, Moves-IsBalanced ex start moves o b)
    handle-IsAccounted reset e (o, b) = (handle-IsOrderly reset e o, b)

    -- On exact amounts no money appears or vanishes: after any run of a new engine, the balance and
    -- the margins and entry fees of the open positions add up to the starting balance and the net
    -- profits of all the closures that were published.
    pub run_accounts_for_all_money :
        (is : List (Input F))
        → let e = (run cfg json_entry is (new_engine cfg)).1 in
          e.account.balance ⊕ reserved e.account.open_positions
          ≡ cfg.risk.starting_balance_usd ⊕ realized (entries e.published)
    run_accounts_for_all_money is =
        (run_keeps IsAccounted handle-IsAccounted is (new_engine cfg)
          (new_engine-IsOrderly, refl)).1

  -- A run in which nobody resets the breakers is a chain of moves of the ledger.
  run-Moves :
      (is : List (Input F)) (e : Engine F)
      → All (IsMarket cfg) is
      → Moves cap (view e) (view (run cfg json_entry is e).1)
  unfolding run
  run-Moves [] e m = here
  run-Moves (i ∷ is) e (m, ms) =
      go (handle cfg json_entry i e) (handle-Moves cfg json_entry i e m) (λ e'. run-Moves is e' ms)
    where
      go :
          (r : Step F)
          → Moves cap (view e) (view r.1)
          → ((e' : Engine F) → Moves cap (view e') (view (run cfg json_entry is e').1))
          → Moves cap (view e) (view (and_then r (run cfg json_entry is)).1)
      go (done, e') before rest = Moves-trans before (rest e')
      go (raised x, e') before rest = before

  -- While nobody resets the breakers, the daily loss breaker's sum is exactly the sum of the net
  -- profits of all closures published since the engine started, rounding included.
  pub run_daily_sum :
      (is : List (Input F))
      → All (IsMarket cfg) is
      → let e = (run cfg json_entry is (new_engine cfg)).1 in
        e.daily_loss.cumulative_pnl ≡ realized (entries e.published)
  run_daily_sum is m = Moves-IsSummed (run-Moves is (new_engine cfg) m) refl

  -- Once tripped, nothing is opened.
  abbrev IsHalted : View F → View F → Type 0
  IsHalted v w =
      v.tripped ≡ true
      → (w.tripped ≡ true) × ((k : String) → openings k w.ledger ≡ openings k v.ledger)

  Move-IsHalted : {v w : View F} → Move cap v w → IsHalted v w
  Move-IsHalted (closes s p x fees net a t found h latch e) tripped =
      rw e (latch tripped, λ k. refl)
  Move-IsHalted (opens p new room calm unfunded e) tripped = absurd (cc (tripped, calm))
  Move-IsHalted (marks s price e) tripped = rw e (tripped, λ k. refl)

  Moves-IsHalted : {v w : View F} → Moves cap v w → IsHalted v w
  Moves-IsHalted here tripped = (tripped, λ k. refl)
  Moves-IsHalted (next ms m) tripped =
      let before = Moves-IsHalted ms tripped in
      let after = Move-IsHalted m before.0 in (after.0, λ k. after.1 k ∙ before.1 k)

  -- An engine with a tripped breaker executes no trade, of any symbol, and stays tripped, over every
  -- run of signals and mark prices in which the breakers are not reset.
  pub run_halted :
      (is : List (Input F)) (e : Engine F)
      → All (IsMarket cfg) is
      → is_tripped e ≡ true
      → let e' = (run cfg json_entry is e).1 in
        (is_tripped e' ≡ true)
        × ((k : String) → openings k (entries e'.published) ≡ openings k (entries e.published))
  run_halted is e m tripped = Moves-IsHalted (run-Moves is e m) tripped
