-- ===== src/Backtest/Agreement/Rows.antt =====
-- The scores of backtest_4_combined.py lie in the rows of its report.
use aicrypto_trader.Base.{
  ℕ, suc, ◌+◌, ◌-◌, ◌≡◌, refl, Bool, true, false, not, List, [], ◌∷◌, All, arith, length, ltb,
  if◌then◌else◌, map, ◌&&◌,
}
use aicrypto_trader.Int.{ℤ, pos, neg_ℤ}
use aicrypto_trader.Float.{Float, lt, nought, literal}
use aicrypto_trader.Backtest.Agreement.{
  ScoredBar, down, score_of, momentum, confirmation, bar_score, equal_ℤ, scores, count_score,
  row_of, analyse_agreement, counts,
}

-- How many of a list of integers an integer is equal to.
pub hits : ℤ → List ℤ → ℕ
hits v [] = 0
hits v (s ∷ ss) = if equal_ℤ v s then suc (hits v ss) else hits v ss

-- The score that a number of votes up and of votes down make: their difference, and one further from
-- zero if the volume confirms it; no direction is not confirmed.
abbrev pub confirmed : ℕ → ℕ → Bool → ℤ
confirmed ups downs loud =
    let extra = if loud then 1 else 0 in
    if ltb downs ups
    then pos (ups - downs + extra)
    else if ltb ups downs
    then neg_ℤ (pos (downs - ups + extra))
    else pos 0

all_bools : (Bool → Bool) → Bool
all_bools p = p true && p false

all_bools_sound : (p : Bool → Bool) (b : Bool) → all_bools p ≡ true → p b ≡ true
unfolding all_bools
all_bools_sound p true h = ground (arith, h)
all_bools_sound p false h = ground (arith, h)

abbrev one_if : Bool → ℕ
one_if b = if b then 1 else 0

-- The votes of four signals: the momentum votes down, up or not at all, the others up or down.
abbrev pub ups_of : Bool → Bool → Bool → Bool → Bool → ℕ
ups_of low high macd ema bb = one_if (not low && high) + one_if macd + one_if ema + one_if bb

abbrev pub downs_of : Bool → Bool → Bool → Bool → ℕ
downs_of low macd ema bb = one_if low + one_if (not macd) + one_if (not ema) + one_if (not bb)

abbrev side_of : Bool → ℤ
side_of b = if b then pos 1 else down

-- What is tested of the comparisons at a bar: the score is the confirmed one, and one of the rows.
test : Bool → Bool → Bool → Bool → Bool → Bool → Bool
test low high macd ema bb loud =
    let s =
      score_of (if low then down else if high then pos 1 else pos 0) (side_of macd) (side_of ema)
        (side_of bb) (if loud then pos 1 else pos 0) in
    equal_ℤ s (confirmed (ups_of low high macd ema bb) (downs_of low macd ema bb) loud)
    && ltb 0 (hits s scores)
    && ltb (hits s scores) 2

abbrev test_bb : Bool → Bool → Bool → Bool → Bool → Bool
test_bb l h m e b = all_bools (test l h m e b)

abbrev test_ema : Bool → Bool → Bool → Bool → Bool
test_ema l h m e = all_bools (test_bb l h m e)

abbrev test_macd : Bool → Bool → Bool → Bool
test_macd l h m = all_bools (test_ema l h m)

abbrev test_high : Bool → Bool → Bool
test_high l h = all_bools (test_macd l h)

abbrev test_low : Bool → Bool
test_low l = all_bools (test_high l)

test_table : all_bools test_low ≡ true
unfolding test all_bools score_of hits
test_table = refl

test_all : (l h m e b v : Bool) → test l h m e b v ≡ true
test_all l h m e b v = all_bools_sound (test l h m e b) v (
    all_bools_sound (test_bb l h m e) b (
      all_bools_sound (test_ema l h m) e (
        all_bools_sound (test_macd l h) m
          (all_bools_sound (test_high l) h (all_bools_sound test_low l test_table)))))

test_sound : (s t : ℤ) (n : ℕ) → (equal_ℤ s t && ltb 0 n && ltb n 2) ≡ true → (s ≡ t) × (n ≡ 1)
test_sound s t n h = ground (arith, h)

module _ {F : Type 0} ⦃fl : Float F⦄ where
  -- The score that a bar should have: the relative strength votes down below 45 and else up above 55,
  -- the MACD histogram above zero, the fast average above the slow one and the price above the middle
  -- band vote up, and otherwise down; the volume confirms if it is above its average.
  abbrev pub agreed_score : ScoredBar F → ℤ
  agreed_score b =
      let low = lt b.rsi (literal 45 0) in
      let high = lt (literal 55 0) b.rsi in
      let macd = lt nought b.macd_hist in
      let ema = lt b.ema50 b.ema20 in
      let bb = lt b.mid b.close in
      confirmed (ups_of low high macd ema bb) (downs_of low macd ema bb) (lt b.vol_avg b.volume)

  bar_score-parts :
      (b : ScoredBar F) → (bar_score b ≡ agreed_score b) × (hits (bar_score b) scores ≡ 1)
  unfolding bar_score test momentum confirmation
  bar_score-parts b = test_sound _ _ _ (
      test_all (lt b.rsi (literal 45 0)) (lt (literal 55 0) b.rsi) (lt nought b.macd_hist)
        (lt b.ema50 b.ema20) (lt b.mid b.close) (lt b.vol_avg b.volume))

  counts_step :
      (b : ScoredBar F) (bs : List (ScoredBar F)) (ss : List ℤ)
      → counts (map (row_of (b ∷ bs)) ss) ≡ hits (bar_score b) ss + counts (map (row_of bs) ss)
  unfolding count_score hits
  counts_step b bs [] = refl
  counts_step b bs (s ∷ ss) = ground (arith, counts_step b bs ss)

  -- Every bar is in exactly one of the rows from -5 to 5, so that the counts of the rows add up to the
  -- number of bars. The score of a bar is the difference of the votes up and down of its four directional
  -- signals, one further from zero if its volume is above the average, and zero if the votes are equal.
  pub analyse_agreement-counts :
      (bs : List (ScoredBar F))
      → (counts (analyse_agreement bs) ≡ length bs) × All (λ b. bar_score b ≡ agreed_score b) bs
  unfolding analyse_agreement count_score
  analyse_agreement-counts [] = (refl, tt)
  analyse_agreement-counts (b ∷ bs) =
      let (total, sums) = analyse_agreement-counts bs in
      let (sum, one) = bar_score-parts b in
      (omega (arith, counts_step b bs scores, one, total), (sum, sums))
