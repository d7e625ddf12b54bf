-- ===== src/Ml/Policy/Replay.antt =====
-- `_ReplayEnv` of backend/src/cryptoswarm/ml/ppo_policy.py: the environment in which the policy is
-- trained. `none` is an exception, which `maybe_train` logs.
use native.Mathlib.Nat.{mod-eq_of_lt}
use Prim.Native.Nat.{◌%◌}
use aicrypto_trader.Base.{
  ℕ, zero, suc, ◌+◌, ◌<◌, ◌≡◌, refl, ap, ◌∙◌, Option, none, some, Bool, true, false, ◌||◌, List, [],
  ◌∷◌, ◌++◌, Bool-cases, inl, inr, arith, leb, length, if◌then◌else◌,
}
use aicrypto_trader.Agents.Messages.{SizeAdjustment}
use aicrypto_trader.Ml.Policy.{Experience, Policy, last_samples}

-- The samples have the oldest first.
pub record Replay (F : Type 0) : Type 0 where
  pub samples : List (Experience F)
  pub idx : ℕ

pub record Answer (F : Type 0) : Type 0 where
  pub obs : List F
  pub reward : F
  pub done : Bool

abbrev pub at_index {ℓ} : {A : Type ℓ} → ℕ → List A → Option A
at_index n [] = none
at_index zero (x ∷ xs) = some x
at_index (suc n) (x ∷ xs) = at_index n xs

module _ {F : Type 0} where
  abbrev pub oldest_first : List (Experience F) → List (Experience F)
  oldest_first [] = []
  oldest_first (x ∷ xs) = oldest_first xs ++ (x ∷ [])

  -- `buffer_copy`
  abbrev pub buffer_copy : Policy F → List (Experience F)
  buffer_copy p = oldest_first (last_samples p.min_train p.buffer)

  abbrev pub new_replay : Policy F → Replay F
  new_replay p = record { samples = buffer_copy p; idx = 0 }

  -- `reset`
  unfoldable pub reset_replay : Replay F → Option (List F × Replay F)
  reset_replay r = elim (r.samples) [ [] ↦ none | ◌∷◌ x xs ↦ some (x.state, record r { idx = 0 }) ]

  abbrev pub step_answer : Experience F → Bool → Answer F
  step_answer x done = record { obs = x.next_state; reward = x.reward; done = done }

  -- `step`: the remainder by no samples is an exception.
  unfoldable pub step_replay : SizeAdjustment → Replay F → Option (Answer F × Replay F)
  step_replay action r = elim (at_index (r.idx % length r.samples) r.samples) [
    | none ↦ none
    | some x ↦
        some (
          step_answer x (x.done || leb (length r.samples) (suc r.idx)),
          record r { idx = suc r.idx },
        )
  ]

module _ {F : Type 0} (choose : List F → SizeAdjustment) where
  abbrev pub and_answer : Answer F → Option (List (Answer F)) → Option (List (Answer F))
  and_answer a none = none
  and_answer a (some as') = some (a ∷ as')

  -- The steps of a policy that chooses its actions from what it observes, until an answer is done;
  -- `none` is an exception or the end of the fuel.
  unfoldable pub play : ℕ → List F → Replay F → Option (List (Answer F))
  play zero obs r = none
  play (suc fuel) obs r = elim (step_replay (choose obs) r) [
    | none ↦ none
    | some s ↦
        let later = play fuel (s.0).obs s.1 in
        if (s.0).done then some (s.0 ∷ []) else and_answer s.0 later
  ]

  abbrev pub play_from_start : ℕ → Option (List F × Replay F) → Option (List (Answer F))
  play_from_start fuel none = none
  play_from_start fuel (some s) = play fuel s.0 s.1

  -- An episode: a reset, and the steps after it.
  unfoldable pub episode : Replay F → Option (List (Answer F))
  episode r = play_from_start (length r.samples) (reset_replay r)

module _ {F : Type 0} where
  -- The samples as answers, up to the first that is done; the last one is done in any case.
  unfoldable pub replayed : List (Experience F) → List (Answer F)
  replayed [] = []
  replayed (x ∷ []) = step_answer x true ∷ []
  replayed (x ∷ y ∷ xs) =
      let rest = replayed (y ∷ xs) in
      if x.done then step_answer x true ∷ [] else step_answer x false ∷ rest

  -- What is left of the samples at an index.
  record IsLeft (samples : List (Experience F)) (idx : ℕ) (left : List (Experience F))
      : Type 0 where
    size : length samples ≡ idx + length left
    rest : (k : ℕ) → at_index (idx + k) samples ≡ at_index k left

  IsLeft-next :
      (samples : List (Experience F)) (idx : ℕ) (x : Experience F) (xs : List (Experience F))
      → IsLeft samples idx (x ∷ xs)
      → IsLeft samples (suc idx) xs
  IsLeft-next samples idx x xs h = record {
    size = omega (arith, h.size);
    rest = λ k.
        let moved : suc idx + k ≡ idx + suc k = omega arith in
        ap (λ n. at_index n samples) moved ∙ h.rest (suc k);
  }

  step_replay-left :
      (a : SizeAdjustment) (samples : List (Experience F)) (idx : ℕ) (x : Experience F)
      (xs : List (Experience F))
      → IsLeft samples idx (x ∷ xs)
      → step_replay a (record { samples = samples; idx = idx })
        ≡ some (
          step_answer x (x.done || leb (length samples) (suc idx)),
          record { samples = samples; idx = suc idx },
        )
  unfolding step_replay
  step_replay-left a samples idx x xs h =
      let small : idx % length samples ≡ idx = mod-eq_of_lt (omega (arith, h.size)) in
      let here : idx ≡ idx + 0 = omega arith in
      let found : at_index idx samples ≡ some x = ap (λ n. at_index n samples) here ∙ h.rest 0 in
      rw (step_replay, small, found) refl

  play-left :
      (choose : List F → SizeAdjustment) (samples : List (Experience F)) (idx : ℕ) (obs : List F)
      (x : Experience F) (xs : List (Experience F))
      → IsLeft samples idx (x ∷ xs)
      → play choose (length (x ∷ xs)) obs (record { samples = samples; idx = idx })
        ≡ some (replayed (x ∷ xs))
  unfolding play replayed
  play-left choose samples idx obs x [] h =
      let last : leb (length samples) (suc idx) ≡ true = ground (arith, h.size) in
      elim (Bool-cases (x.done)) [
        | inl d ↦ rw (play, step_replay-left (choose obs) samples idx x [] h, d) refl
        | inr d ↦ rw (play, step_replay-left (choose obs) samples idx x [] h, d, last) refl
      ]
  play-left choose samples idx obs x (y ∷ ys) h =
      let further : leb (length samples) (suc idx) ≡ false = ground (arith, h.size) in
      let later =
        play-left choose samples (suc idx) (x.next_state) y ys
          (IsLeft-next samples idx x (y ∷ ys) h) in
      elim (Bool-cases (x.done)) [
        | inl d ↦ rw (play, step_replay-left (choose obs) samples idx x (y ∷ ys) h, d) refl
        | inr d ↦
            rw (play, step_replay-left (choose obs) samples idx x (y ∷ ys) h, d, further, later)
              refl
      ]

  -- Whatever a policy chooses, an episode that it plays in the environment made of the buffer is the
  -- same: it ends, and its observations, rewards and marks are those of the samples in their order,
  -- up to the first that is done or the last. So no reward depends on an action.
  pub episode-replayed :
      (choose : List F → SizeAdjustment) (p : Policy F)
      → 0 < length (buffer_copy p)
      → episode choose (new_replay p) ≡ some (replayed (buffer_copy p))
  unfolding episode reset_replay
  episode-replayed choose p some_left = go (buffer_copy p) some_left
    where
      go :
          (samples : List (Experience F))
          → 0 < length samples
          → episode choose (record { samples = samples; idx = 0 }) ≡ some (replayed samples)
      go [] h = absurd (omega (arith, h))
      go (x ∷ xs) h = play-left choose (x ∷ xs) 0 (x.state) x xs (record {
        size = omega arith;
        rest = λ k. let plain : 0 + k ≡ k = omega arith in ap (λ n. at_index n (x ∷ xs)) plain;
      })
