-- ===== src/Dict.antt =====
-- Python's `dict` with string keys, as an association list in insertion order.
use aicrypto_trader.Base.{
  ◌+◌, ◌≤◌, ◌<◌, String, ◌≡◌, refl, Option, none, some, List, [], ◌∷◌, arith, str_eq, eq_iff,
  str_eq_refl, if◌then◌else◌, length, ◌≢◌,
}

abbrev pub Dict {ℓ} : Type ℓ → Type ℓ
Dict V = List (String × V)

module _ {ℓ} {V : Type ℓ} where
  -- `d.get(k)`
  unfoldable pub get : Dict V → String → Option V
  get [] k = none
  get ((j, v) ∷ d) k = if str_eq j k then some v else get d k

  -- `d[k] = v`: a key that is there keeps its place.
  unfoldable pub put : Dict V → String → V → Dict V
  put [] k v = (k, v) ∷ []
  put ((j, w) ∷ d) k v = if str_eq j k then (k, v) ∷ d else (j, w) ∷ put d k v

  -- `d.pop(k, None)`
  unfoldable pub pop : Dict V → String → Dict V
  pop [] k = []
  pop ((j, w) ∷ d) k = if str_eq j k then pop d k else (j, w) ∷ pop d k

  -- No key stands twice.
  abbrev pub IsUnique : Dict V → Type ℓ
  IsUnique [] = Unit
  IsUnique ((k, v) ∷ d) = (get d k ≡ none) × IsUnique d

  pub get-put :
      (d : Dict V) (k j : String) (v : V)
      → get (put d k v) j ≡ (if str_eq k j then some v else get d j)
  unfolding get put
  get-put [] k j v = refl
  get-put ((i, w) ∷ d) k j v = ground (arith, eq_iff k j, eq_iff i k, eq_iff i j, get-put d k j v)

  pub get-pop :
      (d : Dict V) (k j : String) → get (pop d k) j ≡ (if str_eq k j then none else get d j)
  unfolding get pop
  get-pop [] k j = ground arith
  get-pop ((i, w) ∷ d) k j = ground (arith, eq_iff k j, eq_iff i k, eq_iff i j, get-pop d k j)

  pub put-IsUnique : (d : Dict V) (k : String) (v : V) → IsUnique d → IsUnique (put d k v)
  unfolding get put
  put-IsUnique [] k v u = (refl, tt)
  put-IsUnique ((i, w) ∷ d) k v u =
      ground (arith, eq_iff i k, eq_iff k i, put-IsUnique d k v u.1, get-put d k i v)

  pub pop-IsUnique : (d : Dict V) (k : String) → IsUnique d → IsUnique (pop d k)
  unfolding get pop
  pop-IsUnique [] k u = tt
  pop-IsUnique ((i, w) ∷ d) k u =
      ground (arith, eq_iff i k, eq_iff k i, pop-IsUnique d k u.1, get-pop d k i)

  pub length-put_new :
      (d : Dict V) (k : String) (v : V) → get d k ≡ none → length (put d k v) ≡ length d + 1
  unfolding get put
  length-put_new [] k v h = omega arith
  length-put_new ((i, w) ∷ d) k v h = ground (arith, length-put_new d k v)

  pub length-pop : (d : Dict V) (k : String) → length (pop d k) ≤ length d
  unfolding pop
  length-pop [] k = omega arith
  length-pop ((i, w) ∷ d) k = ground (arith, length-pop d k)

  pub length-pop_lt : (d : Dict V) (k : String) → get d k ≢ none → length (pop d k) < length d
  unfolding get pop
  length-pop_lt [] k h = absurd (h refl)
  length-pop_lt ((i, w) ∷ d) k h = ground (arith, length-pop d k, length-pop_lt d k)

  pub get-put_self : (d : Dict V) (k : String) (v : V) → get (put d k v) k ≡ some v
  get-put_self d k v = simp (get-put, str_eq_refl)

  pub pop-none : (d : Dict V) (k : String) → get d k ≡ none → pop d k ≡ d
  unfolding get pop
  pop-none [] k h = refl
  pop-none ((i, w) ∷ d) k h = ground (arith, pop-none d k)

  pub length-put_old :
      (d : Dict V) (k : String) (v : V) → get d k ≢ none → length (put d k v) ≡ length d
  unfolding get put
  length-put_old [] k v h = absurd (h refl)
  length-put_old ((i, w) ∷ d) k v h = ground (arith, length-put_old d k v)

  pub length-pop_found :
      (d : Dict V) (k : String) (v : V)
      → IsUnique d
      → get d k ≡ some v
      → length (pop d k) + 1 ≡ length d
  unfolding get pop
  length-pop_found [] k v u h = absurd (cc h)
  length-pop_found ((i, w) ∷ d) k v (new, u) h =
      ground (arith, eq_iff i k, length-pop_found d k v u, pop-none d k)
