-- ===== src/Backtest/Accuracy.antt =====
-- `evaluate` and `verdict` of backend/scripts/backtest_2_quant.py: how often a signal foretold the
-- direction. The column of the closing prices is a function on the numbers below its length `n`.
use aicrypto_trader.Base.{
  ℕ, zero, suc, ◌+◌, ◌-◌, ◌*◌, ◌≤◌, ◌<◌, ◌≡◌, refl, ap, ◌∙◌, Bool, true, false, not, List, [], ◌∷◌,
  All, arith, length, ltb, if◌then◌else◌, if_intro,
}
use aicrypto_trader.Int.{ℤ, pos, negsuc, leb_ℤ, is_zero}
use aicrypto_trader.Float.{Float, le, lt, nought, literal, of_int, ◌⊘◌}
use aicrypto_trader.Backtest.Votes.{minus_one, QuantBar, sig_combined, sig_combined-majority}

-- The counters of a signal.
pub record Tally : Type 0 where
  pub correct : ℕ
  pub total : ℕ
  pub neutral : ℕ

abbrev pub no_tally : Tally
no_tally = record { correct = 0; total = 0; neutral = 0 }

-- What `verdict` prints.
pub data Edge : Type 0 where
  strong weak marginal no_edge : Edge

-- `range(i, stop, step)` from `i` on for a positive step, which runs out of fuel with the empty list.
unfoldable pub range_from : ℕ → ℕ → ℕ → ℕ → List ℕ
range_from zero i stop step = []
range_from (suc fuel) i stop step =
    let rest = range_from fuel (i + step) stop step in if ltb i stop then i ∷ rest else []

-- `range(0, n - lookahead, step_hours * 60)`: a negative end gives no index, as zero does.
abbrev pub indices : ℕ → ℕ → ℕ → List ℕ
indices n lookahead step_hours = range_from n 0 (n - lookahead) (step_hours * 60)

abbrev pub equal_ℤ : ℤ → ℤ → Bool
equal_ℤ a b = if leb_ℤ a b then leb_ℤ b a else false

-- The counters after a signal of a bar.
unfoldable pub count_signal : ℤ → ℤ → Tally → Tally
count_signal sig actual_dir t =
    if is_zero sig then record t { neutral = suc t.neutral } else record t {
      correct = if equal_ℤ sig actual_dir then suc t.correct else t.correct;
      total = suc t.total;
    }

module _ {F : Type 0} ⦃fl : Float F⦄ (close : ℕ → F) where
  -- `1 if future_price > current_price else -1`
  abbrev pub actual_dir : ℕ → ℕ → ℤ
  actual_dir lookahead i = if lt (close i) (close (i + lookahead)) then pos 1 else minus_one

  -- The loop of `evaluate` for one of the columns.
  unfoldable pub tally : (ℕ → ℤ) → ℕ → List ℕ → Tally → Tally
  tally column lookahead [] t = t
  tally column lookahead (i ∷ is) t =
      tally column lookahead is (count_signal (column i) (actual_dir lookahead i) t)

  unfoldable pub evaluate : (ℕ → ℤ) → ℕ → ℕ → ℕ → Tally
  evaluate column n lookahead step_hours =
      tally column lookahead (indices n lookahead step_hours) no_tally

module _ {F : Type 0} ⦃fl : Float F⦄ where
  -- `correct / total if total > 0 else 0.0`
  unfoldable pub accuracy : Tally → F
  accuracy t = if ltb 0 t.total then of_int (pos t.correct) ⊘ of_int (pos t.total) else nought

  unfoldable pub neutral_pct : Tally → List ℕ → F
  neutral_pct t is =
      if ltb 0 (length is) then of_int (pos t.neutral) ⊘ of_int (pos (length is)) else nought

  unfoldable pub verdict : F → Edge
  verdict acc =
      if le (literal 58 2) acc
      then strong
      else if le (literal 55 2) acc
      then weak
      else if le (literal 52 2) acc
      then marginal
      else no_edge

-- The indices that a loop visits read the columns inside their length.
abbrev pub IsInside : ℕ → ℕ → ℕ → Type 0
IsInside n lookahead i = i + lookahead < n

range_from-IsInside :
    (n lookahead fuel i step : ℕ)
    → All (IsInside n lookahead) (range_from fuel i (n - lookahead) step)
unfolding range_from
range_from-IsInside n lookahead zero i step = tt
range_from-IsInside n lookahead (suc fuel) i step =
    if_intro (All (IsInside n lookahead)) (ltb i (n - lookahead)) _ _
      (λ h. (ground (arith, h), range_from-IsInside n lookahead fuel (i + step) step)) (λ _. tt)

module _ {F : Type 0} ⦃fl : Float F⦄ (close : ℕ → F) where
  tally_counts :
      (column : ℕ → ℤ) (lookahead : ℕ) (is : List ℕ) (t : Tally)
      → t.correct ≤ t.total
      → let r = tally close column lookahead is t in
        (r.correct ≤ r.total) × (r.total + r.neutral ≡ t.total + t.neutral + length is)
  unfolding tally count_signal
  tally_counts column lookahead [] t h = (h, omega arith)
  tally_counts column lookahead (i ∷ is) t h = ground (
    arith,
    tally_counts column lookahead is (count_signal (column i) (actual_dir close lookahead i) t),
  )

  tally-neutral :
      (column : ℕ → ℤ) (lookahead : ℕ) (is : List ℕ) (t : Tally)
      → ((i : ℕ) → is_zero (column i) ≡ false)
      → (tally close column lookahead is t).neutral ≡ t.neutral
  unfolding tally count_signal
  tally-neutral column lookahead [] t h = refl
  tally-neutral column lookahead (i ∷ is) t h = ground (
    arith,
    h i,
    tally-neutral column lookahead is (count_signal (column i) (actual_dir close lookahead i) t),
  )

-- Whether a signal of 1 or -1 foretold whether the price rises; any other signal foretells nothing.
abbrev pub is_foretold : ℤ → Bool → Bool
is_foretold (pos zero) rises = false
is_foretold (pos (suc zero)) rises = rises
is_foretold (pos (suc (suc n))) rises = false
is_foretold (negsuc zero) rises = not rises
is_foretold (negsuc (suc n)) rises = false

count_signal-correct :
    (s : ℤ) (rises : Bool) (t : Tally)
    → (count_signal s (if rises then pos 1 else minus_one) t).correct
      ≡ t.correct + (if is_foretold s rises then 1 else 0)
unfolding count_signal
count_signal-correct (pos zero) true t = ground arith
count_signal-correct (pos zero) false t = ground arith
count_signal-correct (pos (suc zero)) true t = ground arith
count_signal-correct (pos (suc zero)) false t = ground arith
count_signal-correct (pos (suc (suc n))) true t = ground arith
count_signal-correct (pos (suc (suc n))) false t = ground arith
count_signal-correct (negsuc zero) true t = ground arith
count_signal-correct (negsuc zero) false t = ground arith
count_signal-correct (negsuc (suc n)) true t = ground arith
count_signal-correct (negsuc (suc n)) false t = ground arith

module _ {F : Type 0} ⦃fl : Float F⦄ (close : ℕ → F) where
  -- How many of the indices have a signal that foretold whether the price at the index, plus the
  -- look-ahead, is above the price at the index.
  abbrev pub count_right : (ℕ → ℤ) → ℕ → List ℕ → ℕ
  count_right column lookahead [] = 0
  count_right column lookahead (i ∷ is) =
      (if is_foretold (column i) (lt (close i) (close (i + lookahead))) then 1 else 0)
      + count_right column lookahead is

  tally-correct :
      (column : ℕ → ℤ) (lookahead : ℕ) (is : List ℕ) (t : Tally)
      → (tally close column lookahead is t).correct ≡ t.correct + count_right column lookahead is
  unfolding tally
  tally-correct column lookahead [] t = omega arith
  tally-correct column lookahead (i ∷ is) t = omega (
    arith,
    tally-correct column lookahead is (count_signal (column i) (actual_dir close lookahead i) t),
    count_signal-correct (column i) (lt (close i) (close (i + lookahead))) t,
  )

  -- Prices that agree up to the length give the same counters.
  tally-agree :
      (other : ℕ → F) (column : ℕ → ℤ) (n lookahead : ℕ) (is : List ℕ) (t : Tally)
      → ((i : ℕ) → i < n → close i ≡ other i)
      → All (IsInside n lookahead) is
      → tally close column lookahead is t ≡ tally other column lookahead is t
  unfolding tally
  tally-agree other column n lookahead [] t same inside = refl
  tally-agree other column n lookahead (i ∷ is) t same (now, later) =
      rw (same i (omega (arith, now)), same (i + lookahead) now)
        (tally-agree other column n lookahead is _ same later)

-- More fuel than there are numbers up to the end changes nothing.
range_from_enough :
    (fuel i stop step : ℕ)
    → 0 < step
    → stop ≤ i + fuel
    → range_from (suc fuel) i stop step ≡ range_from fuel i stop step
unfolding range_from
range_from_enough zero i stop step s h = ground (arith, h)
range_from_enough (suc fuel) i stop step s h =
    ground (arith, h, range_from_enough fuel (i + step) stop step s)

range_from_more :
    (more n stop step : ℕ)
    → 0 < step
    → stop ≤ n
    → range_from (more + n) 0 stop step ≡ range_from n 0 stop step
range_from_more zero n stop step s h =
    let none_more : 0 + n ≡ n = omega arith in ap (λ fuel. range_from fuel 0 stop step) none_more
range_from_more (suc more) n stop step s h =
    let one_more : suc more + n ≡ suc (more + n) = omega arith in
    ap (λ fuel. range_from fuel 0 stop step) one_more
    ∙ range_from_enough (more + n) 0 stop step s (omega (arith, h))
    ∙ range_from_more more n stop step s h

combined_decides : {F : Type 0} ⦃fl : Float F⦄ (b : QuantBar F) → is_zero (sig_combined b) ≡ false
combined_decides b =
    rw (sig_combined-majority b)
      (if_intro (λ (v : ℤ). is_zero v ≡ false) _ minus_one (pos 1) (λ _. refl) (λ _. refl))

module _ {F : Type 0} ⦃fl : Float F⦄ (close other : ℕ → F) where
  -- What the report's numbers can be.
  pub record IsTallied (column : ℕ → ℤ) (n lookahead step_hours : ℕ) : Type 0 where
    pub whole :
        (more : ℕ)
        → range_from (more + n) 0 (n - lookahead) (step_hours * 60) ≡ indices n lookahead step_hours
    pub inside : All (IsInside n lookahead) (indices n lookahead step_hours)
    pub reads :
        evaluate close column n lookahead step_hours ≡ evaluate other column n lookahead step_hours
    pub right :
        (evaluate close column n lookahead step_hours).correct
        ≡ count_right close column lookahead (indices n lookahead step_hours)
    pub correct_le :
        (evaluate close column n lookahead step_hours).correct
        ≤ (evaluate close column n lookahead step_hours).total
    pub complete :
        (evaluate close column n lookahead step_hours).total
          + (evaluate close column n lookahead step_hours).neutral
        ≡ length (indices n lookahead step_hours)

  -- For every column of signals, and for any length, look-ahead and positive step: the loop reaches
  -- the end of its range with the fuel that it has, more of it adds no index; each index plus the
  -- look-ahead is inside the length, and other closing prices that agree inside it give the same
  -- counters. It counts each index once, as neutral or in the total. As correct it counts exactly the
  -- indices with a signal of 1 where the price after the look-ahead is greater, or of -1 where it is
  -- not; at most the total are correct. The combined signal is never neutral, so that its total is
  -- the number of indices.
  pub evaluate-IsTallied :
      (bars : ℕ → QuantBar F) (column : ℕ → ℤ) (n lookahead step_hours : ℕ)
      → 0 < step_hours
      → ((i : ℕ) → i < n → close i ≡ other i)
      → IsTallied column n lookahead step_hours
        × ((evaluate close (λ i. sig_combined (bars i)) n lookahead step_hours).total
            ≡ length (indices n lookahead step_hours))
  unfolding evaluate
  evaluate-IsTallied bars column n lookahead step_hours positive same =
      let is = indices n lookahead step_hours in
      let counts = tally_counts close column lookahead is no_tally (omega arith) in
      let combined : ℕ → ℤ = λ i. sig_combined (bars i) in
      (
        record {
          whole = λ more.
              range_from_more more n (n - lookahead) (step_hours * 60) (omega (arith, positive))
                (omega arith);
          inside = range_from-IsInside n lookahead n 0 (step_hours * 60);
          reads =
              tally-agree close other column n lookahead is no_tally same
                (range_from-IsInside n lookahead n 0 (step_hours * 60));
          right = omega (arith, tally-correct close column lookahead is no_tally);
          correct_le = counts.0;
          complete = omega (arith, counts.1);
        },
        omega (
          arith,
          (tally_counts close combined lookahead is no_tally (omega arith)).1,
          tally-neutral close combined lookahead is no_tally (λ i. combined_decides (bars i)),
        ),
      )
