-- ===== src/Backtest/Cursors.antt =====
-- The other loops that fetch bars page by page: `fetch_klines` of backtest_2_quant.py,
-- `fetch_klines_binance` of backtest_1_kronos.py and `fetch_1h_klines` of backtest_4_combined.py in
-- backend/scripts. The exchange is a parameter, as in Backtest/Paging.
use aicrypto_trader.Base.{
  ℕ, zero, suc, ◌+◌, ◌<◌, ◌≡◌, refl, Option, none, some, true, List, [], ◌∷◌, ◌++◌, length, ltb,
  leb, arith, if◌then◌else◌, Bool-cases, inl, inr,
}
use aicrypto_trader.Backtest.Paging.{last_ts, fetch_pages}

module _ {A : Type 0} (open_time : A → ℕ) where
  -- backtest_2: the chunk is kept and the start moved before the test of its length.
  unfoldable pub fetch_chunks : (ℕ → List A) → ℕ → ℕ → ℕ → List A → Option (List A)
  fetch_chunks server end_ms zero current_start bars = none
  fetch_chunks server end_ms (suc fuel) current_start bars =
      let next = fetch_chunks server end_ms fuel in
      if ltb current_start end_ms
      then elim (server current_start) [
        | [] ↦ some bars
        | ◌∷◌ r rs ↦
            let extended = bars ++ (r ∷ rs) in
            let start = last_ts open_time r rs + 1 in
            if ltb (length (r ∷ rs)) 1_000 then some extended else next start extended
      ]
      else some bars

  -- backtest_1: the next page starts a minute after the last bar.
  unfoldable pub fetch_minutes : (ℕ → List A) → ℕ → ℕ → ℕ → List A → Option (List A)
  fetch_minutes server end_ms zero cur all_rows = none
  fetch_minutes server end_ms (suc fuel) cur all_rows =
      let next = fetch_minutes server end_ms fuel in
      if ltb cur end_ms
      then elim (server cur) [
        | [] ↦ some all_rows
        | ◌∷◌ r rs ↦ next (last_ts open_time r rs + 60_000) (all_rows ++ (r ∷ rs))
      ]
      else some all_rows

  -- backtest_4: a page that does not move the cursor ends the loop.
  unfoldable pub fetch_hours : (ℕ → List A) → ℕ → ℕ → ℕ → List A → Option (List A)
  fetch_hours server end_ms zero cursor all_bars = none
  fetch_hours server end_ms (suc fuel) cursor all_bars =
      let next = fetch_hours server end_ms fuel in
      if ltb cursor end_ms
      then elim (server cursor) [
        | [] ↦ some all_bars
        | ◌∷◌ r rs ↦
            let extended = all_bars ++ (r ∷ rs) in
            let last = last_ts open_time r rs in
            if leb last cursor then some extended else next (last + 1) extended
      ]
      else some all_bars

  -- backtest_2 fetches what backtest_5 does, with the limit of 1000 bars that it asks for.
  pub fetch_chunks-fetch_pages :
      (server : ℕ → List A) (end_ms fuel start : ℕ) (bars : List A)
      → fetch_chunks server end_ms fuel start bars
        ≡ fetch_pages open_time server 1_000 end_ms fuel start bars
  unfolding fetch_chunks fetch_pages
  fetch_chunks-fetch_pages server end_ms zero start bars = refl
  fetch_chunks-fetch_pages server end_ms (suc fuel) start bars =
      go (server start) (fetch_chunks-fetch_pages server end_ms fuel)
    where
      go :
          (page : List A)
          → ((t : ℕ) (rows : List A)
              → fetch_chunks server end_ms fuel t rows
                ≡ fetch_pages open_time server 1_000 end_ms fuel t rows)
          → (if ltb start end_ms
              then elim page as (λ _. Option (List A)) [
                | [] ↦ some bars
                | ◌∷◌ r rs ↦
                    if ltb (length (r ∷ rs)) 1_000
                    then some (bars ++ (r ∷ rs))
                    else fetch_chunks server end_ms fuel
                        (last_ts open_time r rs + 1)
                        (bars ++ (r ∷ rs))
              ]
              else some bars)
            ≡ (if ltb start end_ms
                then elim page as (λ _. Option (List A)) [
                  | [] ↦ some bars
                  | ◌∷◌ r rs ↦
                      if ltb (length (r ∷ rs)) 1_000
                      then some (bars ++ (r ∷ rs))
                      else fetch_pages open_time server 1_000 end_ms fuel
                          (last_ts open_time r rs + 1)
                          (bars ++ (r ∷ rs))
                ]
                else some bars)
      go [] same = refl
      go (r ∷ rs) same = rw (same (last_ts open_time r rs + 1) (bars ++ (r ∷ rs))) refl

  -- Whatever the exchange answers, the loop of backtest_4 ends: one turn more than there are
  -- milliseconds from the cursor to the end is enough, and what was fetched before is kept in front.
  pub fetch_hours_ends :
      (server : ℕ → List A) (end_ms fuel cursor : ℕ) (all_bars : List A)
      → end_ms < cursor + fuel
      → 0 < fuel
      → (bars : List A) × (fetch_hours server end_ms fuel cursor all_bars ≡ some bars)
  unfolding fetch_hours
  fetch_hours_ends server end_ms zero cursor all_bars h p = absurd (omega (arith, p))
  fetch_hours_ends server end_ms (suc fuel) cursor all_bars h p =
      elim (Bool-cases (ltb cursor end_ms)) [
        | inr over ↦ (all_bars, rw (over, fetch_hours) refl)
        | inl on ↦ go (server cursor) refl on (fetch_hours_ends server end_ms fuel)
      ]
    where
      go :
          (page : List A)
          → server cursor ≡ page
          → ltb cursor end_ms ≡ true
          → ((t : ℕ) (rows : List A)
              → end_ms < t + fuel
              → 0 < fuel
              → (bars : List A) × (fetch_hours server end_ms fuel t rows ≡ some bars))
          → (bars : List A) × (fetch_hours server end_ms (suc fuel) cursor all_bars ≡ some bars)
      go [] e on again = (all_bars, rw (on, e, fetch_hours) refl)
      go (r ∷ rs) e on again =
          let last = last_ts open_time r rs in
          let extended = all_bars ++ (r ∷ rs) in
          elim (Bool-cases (leb last cursor)) [
            | inl stuck ↦ (extended, rw (on, e, stuck, fetch_hours) refl)
            | inr moved ↦
                let (bars, done) =
                  again (last + 1) extended (ground (arith, on, moved, h))
                    (ground (arith, on, h)) in
                (bars, rw (on, e, moved, fetch_hours) done)
          ]

  -- The loop of backtest_1 has no such test: while the exchange answers every request with the same
  -- bar, which opens more than a minute before the end, no number of turns is enough.
  fetch_minutes_stuck :
      (server : ℕ → List A) (end_ms fuel cur : ℕ) (all_rows : List A) (r : A)
      → ((t : ℕ) → server t ≡ r ∷ [])
      → open_time r + 60_000 < end_ms
      → cur < end_ms
      → fetch_minutes server end_ms fuel cur all_rows ≡ none
  unfolding fetch_minutes
  fetch_minutes_stuck server end_ms zero cur all_rows r same h c = refl
  fetch_minutes_stuck server end_ms (suc fuel) cur all_rows r same h c =
      let again =
        fetch_minutes_stuck server end_ms fuel (open_time r + 60_000) (all_rows ++ (r ∷ [])) r same
          h h in
      rw (same cur) (ground (arith, again, c))
