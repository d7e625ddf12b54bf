-- ===== src/Ml/Policy/Buffer.antt =====
-- What the buffer of the policy holds after a series of updates.
use aicrypto_trader.Base.{take, ℕ, zero, suc, ◌≡◌, refl, ap, List, [], ◌∷◌, length}
use aicrypto_trader.Ml.Policy.{Experience, Policy, new_policy, update}

take-take-suc {ℓ} : {A : Type ℓ} (n : ℕ) (xs : List A) → take n (take (suc n) xs) ≡ take n xs
take-take-suc zero xs = refl
take-take-suc (suc n) [] = refl
take-take-suc (suc n) (x ∷ xs) = ap (λ ys. x ∷ ys) (take-take-suc n xs)

take-cons {ℓ} :
    {A : Type ℓ} (n : ℕ) (x : A) (xs : List A) → take n (x ∷ take n xs) ≡ take n (x ∷ xs)
take-cons zero x xs = refl
take-cons (suc n) x xs = ap (λ ys. x ∷ ys) (take-take-suc n xs)

module _ {F : Type 0} where
  -- The updates with the experiences `xs`, the latest first.
  unfoldable pub updates : List (Experience F) → Policy F → Policy F
  updates [] p = p
  updates (x ∷ xs) p = update x (updates xs p)

  updates-max :
      (xs : List (Experience F)) (p : Policy F) → (updates xs p).max_buffer_size ≡ p.max_buffer_size
  unfolding updates update
  updates-max [] p = refl
  updates-max (x ∷ xs) p = updates-max xs p

  -- After any series of updates the buffer holds exactly the latest experiences, as many as its
  -- maximal size admits, and the counter counts all of them.
  pub updates-buffer :
      (m n : ℕ) (xs : List (Experience F))
      → ((updates xs (new_policy m n)).buffer ≡ take n xs)
        × ((updates xs (new_policy m n)).experience_count ≡ length xs)
  unfolding updates update
  updates-buffer m zero [] = (refl, refl)
  updates-buffer m (suc n) [] = (refl, refl)
  updates-buffer m n (x ∷ xs) =
      let (kept, counted) = updates-buffer m n xs in
      (rw (updates-max xs (new_policy m n), kept, take-cons n x xs) refl, ap suc counted)
