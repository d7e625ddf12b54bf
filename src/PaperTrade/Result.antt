-- ===== src/PaperTrade/Result.antt =====
-- Python exceptions as values.

-- The exceptions that the trading code can raise.
use aicrypto_trader.Base.{◌≡◌, refl, ◌⊎◌, inl, inr}

pub data Fault : Type 0 where
  value_error zero_division key_error validation_error : Fault

pub data Result {ℓ} (A : Type ℓ) : Type ℓ where
  ok : A → Result A
  err : Fault → Result A

infixl 5 ◌>>=◌
abbrev pub ◌>>=◌ {ℓ κ} : {A : Type ℓ} {B : Type κ} → Result A → (A → Result B) → Result B
ok a >>= f = f a
err e >>= f = err e

pub Result-cases :
    {A : Type 0} (r : Result A) → ((a : A) × (r ≡ ok a)) ⊎ ((x : Fault) × (r ≡ err x))
Result-cases (ok a) = inl (a, refl)
Result-cases (err x) = inr (x, refl)
