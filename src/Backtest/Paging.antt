-- ===== src/Backtest/Paging.antt =====
-- `fetch_klines` of backend/scripts/backtest_5_sltp.py: the bars of a symbol, page by page.
-- The exchange is a parameter: the page that it answers from a start time on, for the end time and
-- the limit of the request. Requests that fail raise and are not modelled; dropping duplicates and
-- sorting are the table library's.
use aicrypto_trader.Base.{
  ℕ, zero, suc, ◌+◌, ◌-◌, ◌≤◌, ◌<◌, ◌≡◌, refl, sym, ap, ◌∙◌, Option, none, some, true, List, [],
  ◌∷◌, ◌++◌, All, length, take, ltb, leb, arith, if◌then◌else◌, Bool-cases, if_intro, subst, inl,
  inr,
}

module _ {A : Type 0} (open_time : A → ℕ) where
  -- `rows[-1][0]`
  abbrev pub last_ts : A → List A → ℕ
  last_ts r [] = open_time r
  last_ts r (s ∷ ss) = last_ts s ss

  -- The loop, which runs out of fuel with `none`.
  unfoldable pub fetch_pages : (ℕ → List A) → ℕ → ℕ → ℕ → ℕ → List A → Option (List A)
  fetch_pages server limit end_ms zero current_start all_rows = none
  fetch_pages server limit end_ms (suc fuel) current_start all_rows =
      let next = fetch_pages server limit end_ms fuel in
      if ltb current_start end_ms
      then elim (server current_start) [
        | [] ↦ some all_rows
        | ◌∷◌ r rs ↦
            if ltb (length (r ∷ rs)) limit
            then some (all_rows ++ (r ∷ rs))
            else next (last_ts r rs + 1) (all_rows ++ (r ∷ rs))
      ]
      else some all_rows

  -- What the exchange has from a time on.
  abbrev pub bars_from : ℕ → List A → List A
  bars_from t [] = []
  bars_from t (x ∷ xs) = if leb t (open_time x) then x ∷ bars_from t xs else bars_from t xs

  abbrev pub IsAfter : ℕ → A → Type 0
  IsAfter t x = t < open_time x

  abbrev pub IsBefore : ℕ → A → Type 0
  IsBefore t x = open_time x < t

  -- The bars are in the order of their times, and no two open at once.
  abbrev pub IsAscending : List A → Type 0
  IsAscending [] = Unit
  IsAscending (x ∷ xs) = All (IsAfter (open_time x)) xs × IsAscending xs

  abbrev rest : ℕ → List A → List A
  rest zero xs = xs
  rest (suc n) [] = []
  rest (suc n) (x ∷ xs) = rest n xs

  take-rest : (n : ℕ) (xs : List A) → take n xs ++ rest n xs ≡ xs
  take-rest zero xs = refl
  take-rest (suc n) [] = refl
  take-rest (suc n) (x ∷ xs) = ap (λ ys. x ∷ ys) (take-rest n xs)

  short_page : (n : ℕ) (xs : List A) → length (take n xs) < n → take n xs ≡ xs
  short_page zero xs h = absurd (omega (arith, h))
  short_page (suc n) [] h = refl
  short_page (suc n) (x ∷ xs) h = ap (λ ys. x ∷ ys) (short_page n xs (omega (arith, h)))

  bars_from_kept : (t : ℕ) (xs : List A) → All (IsAfter t) xs → bars_from (t + 1) xs ≡ xs
  bars_from_kept t [] h = refl
  bars_from_kept t (x ∷ xs) (h, hs) = ground (arith, bars_from_kept t xs hs)

  bars_from_past : (t u : ℕ) (xs : List A) → All (IsBefore t) xs → t ≤ u → bars_from u xs ≡ []
  bars_from_past t u [] h l = refl
  bars_from_past t u (x ∷ xs) (h, hs) l = ground (arith, bars_from_past t u xs hs l)

  bars_from-bars_from :
      (t u : ℕ) (xs : List A) → t ≤ u → bars_from u (bars_from t xs) ≡ bars_from u xs
  bars_from-bars_from t u [] l = refl
  bars_from-bars_from t u (x ∷ xs) l = ground (arith, bars_from-bars_from t u xs l)

  bars_from-IsAfter :
      (t u : ℕ) (xs : List A) → All (IsAfter u) xs → All (IsAfter u) (bars_from t xs)
  bars_from-IsAfter t u [] h = tt
  bars_from-IsAfter t u (x ∷ xs) (h, hs) =
      let kept = bars_from-IsAfter t u xs hs in
      if_intro (All (IsAfter u)) (leb t (open_time x)) _ _ (λ _. (h, kept)) (λ _. kept)

  bars_from-IsAscending : (t : ℕ) (xs : List A) → IsAscending xs → IsAscending (bars_from t xs)
  bars_from-IsAscending t [] h = tt
  bars_from-IsAscending t (x ∷ xs) (h, hs) =
      let kept = bars_from-IsAscending t xs hs in
      if_intro IsAscending (leb t (open_time x)) _ _
        (λ _. (bars_from-IsAfter t (open_time x) xs h, kept)) (λ _. kept)

  -- The last bar of a page opens no earlier than its first.
  last_ts_le :
      (k : ℕ) (y : A) (zs : List A) → IsAscending (y ∷ zs) → open_time y ≤ last_ts y (take k zs)
  last_ts_le zero y zs h = omega arith
  last_ts_le (suc k) y [] h = omega arith
  last_ts_le (suc k) y (z ∷ ws) ((h, hs), a) = omega (arith, last_ts_le k z ws a, h)

  -- After a page the exchange has exactly the bars that were not on it.
  past_page :
      (k : ℕ) (y : A) (zs : List A)
      → IsAscending (y ∷ zs)
      → bars_from (last_ts y (take k zs) + 1) (y ∷ zs) ≡ rest k zs
  past_page zero y zs (h, a) = ground (arith, bars_from_kept (open_time y) zs h)
  past_page (suc k) y [] h = ground arith
  past_page (suc k) y (z ∷ ws) ((h, hs), a) =
      ground (arith, past_page k z ws a, last_ts_le k z ws a, h)

  last_ts_before :
      (end_ms k : ℕ) (y : A) (zs : List A)
      → All (IsBefore end_ms) (y ∷ zs)
      → last_ts y (take k zs) < end_ms
  last_ts_before end_ms zero y zs (h, hs) = h
  last_ts_before end_ms (suc k) y [] (h, hs) = h
  last_ts_before end_ms (suc k) y (z ∷ ws) (h, hs) = last_ts_before end_ms k z ws hs

  bars_from-IsBefore :
      (t u : ℕ) (xs : List A) → All (IsBefore u) xs → All (IsBefore u) (bars_from t xs)
  bars_from-IsBefore t u [] h = tt
  bars_from-IsBefore t u (x ∷ xs) (h, hs) =
      let kept = bars_from-IsBefore t u xs hs in
      if_intro (All (IsBefore u)) (leb t (open_time x)) _ _ (λ _. (h, kept)) (λ _. kept)

  first_after :
      (t : ℕ) (xs : List A) (y : A) (zs : List A) → bars_from t xs ≡ y ∷ zs → t ≤ open_time y
  first_after t [] y zs h = absurd (cc h)
  first_after t (x ∷ xs) y zs h = ground (arith, h, first_after t xs y zs)

  append_nil : (xs : List A) → xs ++ [] ≡ xs
  append_nil [] = refl
  append_nil (x ∷ xs) = ap (λ ys. x ∷ ys) (append_nil xs)

  append_assoc : (xs ys zs : List A) → (xs ++ ys) ++ zs ≡ xs ++ (ys ++ zs)
  append_assoc [] ys zs = refl
  append_assoc (x ∷ xs) ys zs = ap (λ us. x ∷ us) (append_assoc xs ys zs)

  module _ (server : ℕ → List A) (k end_ms : ℕ) (market : List A) (ascending : IsAscending market)
      (before : All (IsBefore end_ms) market)
      (answers : (t : ℕ) → server t ≡ take (suc k) (bars_from t market)) where
    abbrev fetches : ℕ → ℕ → List A → Option (List A)
    fetches = fetch_pages server (suc k) end_ms

    -- The bars from a time on are those of a page and those after it.
    page_and_rest :
        (start : ℕ) (y : A) (zs : List A)
        → bars_from start market ≡ y ∷ zs
        → (y ∷ take k zs) ++ bars_from (last_ts y (take k zs) + 1) market ≡ bars_from start market
    page_and_rest start y zs h =
        let inside : IsAscending (y ∷ zs) =
          subst IsAscending h (bars_from-IsAscending start market ascending) in
        let late : start ≤ last_ts y (take k zs) + 1 =
          omega (arith, first_after start market y zs h, last_ts_le k y zs inside) in
        rw
          (
            sym (bars_from-bars_from start (last_ts y (take k zs) + 1) market late),
            h,
            past_page k y zs inside,
          )
          (take-rest (suc k) (y ∷ zs))

    fetches_all :
        (fuel start : ℕ) (all_rows : List A)
        → 0 < fuel
        → end_ms < start + fuel
        → fetches fuel start all_rows ≡ some (all_rows ++ bars_from start market)
    unfolding fetch_pages
    fetches_all zero start all_rows f e = absurd (omega (arith, f))
    fetches_all (suc fuel) start all_rows f e = elim (Bool-cases (ltb start end_ms)) [
      | inr h ↦
          let none_left : bars_from start market ≡ [] =
            bars_from_past end_ms start market before (ground (arith, h)) in
          rw (h, none_left, append_nil all_rows, fetch_pages) refl
      | inl h ↦ go (bars_from start market) refl h (fetches_all fuel)
    ]
      where
        go :
            (left : List A)
            → bars_from start market ≡ left
            → ltb start end_ms ≡ true
            → ((t : ℕ) (rows : List A)
                → 0 < fuel
                → end_ms < t + fuel
                → fetches fuel t rows ≡ some (rows ++ bars_from t market))
            → fetches (suc fuel) start all_rows ≡ some (all_rows ++ bars_from start market)
        go [] h l again = rw (l, answers start, h, append_nil all_rows, fetch_pages) refl
        go (y ∷ zs) h l again =
            let page = y ∷ take k zs in
            let inside : IsAscending (y ∷ zs) =
              subst IsAscending h (bars_from-IsAscending start market ascending) in
            elim (Bool-cases (ltb (length page) (suc k))) [
              | inl short ↦
                  let whole = short_page (suc k) (y ∷ zs) (ground (arith, short)) in
                  rw (l, answers start, h, short, fetch_pages)
                    (ap (λ xs. some (all_rows ++ xs)) whole)
              | inr full ↦
                  let further =
                    again (last_ts y (take k zs) + 1) (all_rows ++ page) (ground (arith, l, e)) (
                      omega
                        (arith, e, first_after start market y zs h, last_ts_le k y zs inside)) in
                  rw (l, answers start, h, full, fetch_pages)
                    (further
                      ∙ ap some (append_assoc all_rows page _)
                      ∙ ap (λ xs. some (all_rows ++ xs)) (page_and_rest start y zs h ∙ h))
            ]

  -- When the exchange answers each request with the first bars from its start time on, up to the
  -- limit, which is not zero, and no two bars open at once and none at the end time or later, the
  -- loop ends: one turn more than there are milliseconds from the start to the end is enough. It has
  -- then fetched every bar from the start time on exactly once, in order.
  pub fetch_pages_ends :
      (server : ℕ → List A) (limit start_ms end_ms : ℕ) (market : List A)
      → 0 < limit
      → IsAscending market
      → All (IsBefore end_ms) market
      → ((t : ℕ) → server t ≡ take limit (bars_from t market))
      → fetch_pages server limit end_ms (suc (end_ms - start_ms)) start_ms []
        ≡ some (bars_from start_ms market)
  fetch_pages_ends server zero start_ms end_ms market l a b s = absurd (omega (arith, l))
  fetch_pages_ends server (suc k) start_ms end_ms market l a b s =
      fetches_all server k end_ms market a b s (suc (end_ms - start_ms)) start_ms [] (omega arith)
        (omega arith)
