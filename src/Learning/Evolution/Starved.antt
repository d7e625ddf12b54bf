-- ===== src/Learning/Evolution/Starved.antt =====
-- The prompts over what the program stores: storage/subscriber.py, storage/postgres.py and
-- learning/prompt_evolution.py together.
use aicrypto_trader.Base.{
  ℕ, String, ◌≡◌, refl, none, List, [], ◌∷◌, ◌++◌, All, arith, Option-cases, inl, inr, take, zero,
  suc,
}
use aicrypto_trader.Dict.{Dict, get}
use aicrypto_trader.Float.{Float}
use aicrypto_trader.Storage.{
  Write, RlAction, insert_trade_open, insert_rl_tuple, update_trade_close, insert_circuit_event,
}
use aicrypto_trader.Database.{
  Trade, Json, RlTuple, Tables, no_rows, perform, action_json, is_action_of, update_rl_tuple_reward,
}
use aicrypto_trader.Database.Orphans.{close_orphan_positions}
use aicrypto_trader.Database.Joined.{
  rewarded_rows, joined_rows, latest_first, get_recent_closed_trades,
}
use aicrypto_trader.Learning.Evolution.{Prompts, EvolutionOutside}
use aicrypto_trader.Learning.Evolution.Cycle.{run_once}

-- What the program does to the tables: a write of the storage subscriber, a reward of the reward
-- computer, the start of a session.
pub data Statement (F : Type 0) : Type 0 where
  writes : ℕ → Write F → Statement F
  rewards : String → F → Statement F
  starts : ℕ → Dict F → Statement F

module _ {F : Type 0} ⦃fl : Float F⦄ (shown : Json F → String) where
  unfoldable pub execute : Statement F → Tables F → Tables F
  execute (writes ts w) d = perform ts w d
  execute (rewards id reward) d = record d {
    rl_tuples = update_rl_tuple_reward shown id reward d.rl_tuples;
  }
  execute (starts now prices) d = record d {
    trades = (close_orphan_positions now prices d.trades).1;
  }

  unfoldable pub execute_all : List (Statement F) → Tables F → Tables F
  execute_all [] d = d
  execute_all (s ∷ ss) d = execute_all ss (execute s d)

  -- A tuple that names no trade and has no reward.
  abbrev IsNameless : RlTuple F → Type 0
  IsNameless r = (get r.action "correlation_id" ≡ none) × (r.reward ≡ none)

  nameless_action : (a : RlAction F) → get (action_json a) "correlation_id" ≡ none
  unfolding get
  nameless_action a = refl

  append-IsNameless :
      (rs : List (RlTuple F)) (r : RlTuple F)
      → All IsNameless rs
      → IsNameless r
      → All IsNameless (rs ++ (r ∷ []))
  append-IsNameless [] r h p = (p, tt)
  append-IsNameless (q ∷ rs) r (h, hs) p = (h, append-IsNameless rs r hs p)

  unrewarded :
      (id : String) (reward : F) (rs : List (RlTuple F))
      → All IsNameless rs
      → update_rl_tuple_reward shown id reward rs ≡ rs
  unfolding update_rl_tuple_reward is_action_of
  unrewarded id reward [] h = refl
  unrewarded id reward (r ∷ rs) ((n, u), hs) = ground (arith, unrewarded id reward rs hs)

  execute-IsNameless :
      (s : Statement F) (d : Tables F)
      → All IsNameless d.rl_tuples
      → All IsNameless (execute s d).rl_tuples
  unfolding execute perform
  execute-IsNameless (writes ts (insert_trade_open r)) d h = h
  execute-IsNameless (writes ts (insert_rl_tuple a)) d h =
      append-IsNameless d.rl_tuples _ h (nameless_action a, refl)
  execute-IsNameless (writes ts (update_trade_close r)) d h = h
  execute-IsNameless (writes ts (insert_circuit_event b x y)) d h = h
  execute-IsNameless (rewards id reward) d h = rw (unrewarded id reward d.rl_tuples h) h
  execute-IsNameless (starts now prices) d h = h

  execute_all-IsNameless :
      (ss : List (Statement F)) (d : Tables F)
      → All IsNameless d.rl_tuples
      → All IsNameless (execute_all ss d).rl_tuples
  unfolding execute_all
  execute_all-IsNameless [] d h = h
  execute_all-IsNameless (s ∷ ss) d h =
      execute_all-IsNameless ss (execute s d) (execute-IsNameless s d h)

  no_rewarded_rows :
      (t : Trade F) (ts : ℕ) (rs : List (RlTuple F))
      → All IsNameless rs
      → rewarded_rows shown t ts rs ≡ []
  unfolding rewarded_rows
  no_rewarded_rows t ts [] h = refl
  no_rewarded_rows t ts (r ∷ rs) ((n, u), hs) = ground (arith, no_rewarded_rows t ts rs hs)

  no_joined_rows :
      (trades : List (Trade F)) (rs : List (RlTuple F))
      → All IsNameless rs
      → joined_rows shown trades rs ≡ []
  unfolding joined_rows
  no_joined_rows [] rs h = refl
  no_joined_rows (t ∷ ts) rs h = elim (Option-cases (t.closed_ts)) [
    | inl e ↦ rw e (no_joined_rows ts rs h)
    | inr (closed, e) ↦ rw (e, no_rewarded_rows t closed rs h) (no_joined_rows ts rs h)
  ]

  -- No prompt ever evolves: from empty tables, after whatever trades the subscriber stores, rewards
  -- the reward computer reports and sessions start, a cycle finds no trade and leaves all prompts and
  -- the cache as they are, whatever the teacher would answer and however many trades are asked for.
  pub evolution_never_rewrites :
      (out : EvolutionOutside F) (statements : List (Statement F)) (limit : ℕ) (p : Prompts F)
      → let d = execute_all statements no_rows in
        run_once out (get_recent_closed_trades shown limit d.trades d.rl_tuples) p ≡ p
  unfolding get_recent_closed_trades latest_first run_once
  evolution_never_rewrites out statements limit p =
      let d = execute_all statements no_rows in
      let none_joined =
        no_joined_rows d.trades d.rl_tuples (execute_all-IsNameless statements no_rows tt) in
      rw none_joined (nothing limit)
    where
      nothing : (n : ℕ) → run_once out (take n []) p ≡ p
      nothing zero = refl
      nothing (suc n) = refl
