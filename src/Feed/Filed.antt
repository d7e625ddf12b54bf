-- ===== src/Feed/Filed.antt =====
-- What the statements of storage/timescale.py make of a table: each row that is inserted leaves one
-- with its key.
use aicrypto_trader.Base.{
  ℕ, String, ◌≡◌, ◌⊎◌, refl, inl, inr, arith, Bool-cases, true, List, [], ◌∷◌, ◌++◌, All, eq_iff,
}
use aicrypto_trader.Feed.Stored.{has_key, upsert}

module _ {R : Type 0} (key : R → String × ℕ) where
  -- One row after the other.
  abbrev pub upsert_all : List R → List R → List R
  upsert_all [] table = table
  upsert_all (r ∷ rs) table = upsert_all rs (upsert key r table)

  -- A row of the table has the key.
  abbrev pub IsThere : String × ℕ → List R → Type 0
  IsThere k [] = ⊥
  IsThere k (r ∷ rs) = (((key r).0 ≡ k.0) × ((key r).1 ≡ k.1)) ⊎ IsThere k rs

  has_key-IsThere : (k : String × ℕ) (rs : List R) → has_key key k rs ≡ true → IsThere k rs
  unfolding has_key
  has_key-IsThere k [] h = absurd (cc h)
  has_key-IsThere k (r ∷ rs) h = ground (arith, h, eq_iff (key r).0 k.0, has_key-IsThere k rs)

  IsThere-append : (k : String × ℕ) (rs ss : List R) → IsThere k rs → IsThere k (rs ++ ss)
  IsThere-append k [] ss h = absurd h
  IsThere-append k (r ∷ rs) ss (inl h) = inl h
  IsThere-append k (r ∷ rs) ss (inr h) = inr (IsThere-append k rs ss h)

  IsThere-last : (r : R) (rs : List R) → IsThere (key r) (rs ++ (r ∷ []))
  IsThere-last r [] = inl (refl, refl)
  IsThere-last r (s ∷ rs) = inr (IsThere-last r rs)

  upsert-IsThere : (r : R) (rs : List R) → IsThere (key r) (upsert key r rs)
  unfolding upsert
  upsert-IsThere r rs = elim (Bool-cases (has_key key (key r) rs)) [
    | inl h ↦ rw h (has_key-IsThere (key r) rs h)
    | inr h ↦ rw h (IsThere-last r rs)
  ]

  upsert_keeps : (k : String × ℕ) (r : R) (rs : List R) → IsThere k rs → IsThere k (upsert key r rs)
  unfolding upsert
  upsert_keeps k r rs there = elim (Bool-cases (has_key key (key r) rs)) [
    | inl h ↦ rw h there
    | inr h ↦ rw h (IsThere-append k rs (r ∷ []) there)
  ]

  upsert_all_keeps :
      (k : String × ℕ) (rs table : List R) → IsThere k table → IsThere k (upsert_all rs table)
  upsert_all_keeps k [] table h = h
  upsert_all_keeps k (r ∷ rs) table h =
      upsert_all_keeps k rs (upsert key r table) (upsert_keeps k r table h)

  pub upsert_all-IsThere : (rs table : List R) → All (λ r. IsThere (key r) (upsert_all rs table)) rs
  upsert_all-IsThere [] table = tt
  upsert_all-IsThere (r ∷ rs) table = (
    upsert_all_keeps (key r) rs (upsert key r table) (upsert-IsThere r table),
    upsert_all-IsThere rs (upsert key r table),
  )
