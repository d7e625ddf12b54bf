-- ===== src/Ml/Policy.antt =====
-- backend/src/cryptoswarm/ml/ppo_policy.py: the buffer and the states of the PPO policy.
-- A model of the Stable-Baselines3 library is a parameter: what it chooses, and whether building and
-- training it ends without an exception.
pub mod Buffer
pub mod Replay
use aicrypto_trader.Base.{
  ℕ, zero, suc, ◌+◌, Option, none, some, Bool, true, false, not, ◌||◌, List, [], ◌∷◌, ltb, ◌==◌,
  length, take, if◌then◌else◌,
}
use aicrypto_trader.Float.{Float, nought, literal}
use aicrypto_trader.Agents.Messages.{SizeAdjustment, hold}

pub record Experience (F : Type 0) : Type 0 where
  pub state : List F
  pub action : SizeAdjustment
  pub reward : F
  pub next_state : List F
  pub done : Bool

-- The buffer has the latest experience first.
pub record Policy (F : Type 0) : Type 0 where
  pub min_train : ℕ
  pub max_buffer_size : ℕ
  pub has_model : Bool
  pub is_trained : Bool
  pub experience_count : ℕ
  pub buffer : List (Experience F)

pub record Trainer (F : Type 0) : Type 0 where
  pub builds : List (Experience F) → Bool
  pub learns : List (Experience F) → Bool

module _ {F : Type 0} where
  abbrev pub new_policy : ℕ → ℕ → Policy F
  new_policy min_train_samples max_buffer_size = record {
    min_train = min_train_samples;
    max_buffer_size = max_buffer_size;
    has_model = false;
    is_trained = false;
    experience_count = 0;
    buffer = [];
  }

  -- A full `deque` drops its oldest element.
  unfoldable pub update : Experience F → Policy F → Policy F
  update x p = record p {
    buffer = take p.max_buffer_size (x ∷ p.buffer);
    experience_count = suc p.experience_count;
  }

  -- `list(self._buffer)[-n:]`; the slice from -0 is the whole list.
  abbrev pub last_samples : ℕ → List (Experience F) → List (Experience F)
  last_samples n xs = if n == 0 then xs else take n xs

  -- `_train`, with the exceptions that `maybe_train` logs.
  unfoldable pub train : Trainer F → Policy F → Policy F
  train t p =
      let samples = last_samples p.min_train p.buffer in
      if not (p.has_model || t.builds samples)
      then p
      else if t.learns samples
      then record p { has_model = true; is_trained = true }
      else record p { has_model = true }

  unfoldable pub maybe_train : Trainer F → Policy F → Policy F
  maybe_train t p = if ltb (length p.buffer) p.min_train then p else train t p

module _ {F : Type 0} ⦃fl : Float F⦄ where
  abbrev with_confidence : Option SizeAdjustment → Option (SizeAdjustment × F)
  with_confidence none = none
  with_confidence (some a) = some (a, literal 6 1)

  -- `predict`; `none` is an exception of the model.
  unfoldable pub predict :
      (List F → Option SizeAdjustment) → Policy F → List F → Option (SizeAdjustment × F)
  predict choose p state =
      if not p.is_trained || not p.has_model
      then some (hold, nought)
      else with_confidence (choose state)
