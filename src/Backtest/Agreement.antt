-- ===== src/Backtest/Agreement.antt =====
-- backend/scripts/backtest_4_combined.py: the score of a bar, from five signals, and the accuracy of
-- each score. The indicators and averages are the library's: a bar comes with their values, which may
-- be NaN, and with the return of the next hours.
pub mod Rows
use aicrypto_trader.Base.{
  ℕ, zero, suc, ◌+◌, ◌-◌, ◌≤◌, ◌<◌, ◌⊎◌, ◌≡◌, refl, ap, ◌∙◌, inl, inr, Bool, true, false, Option,
  none, some, List, [], ◌∷◌, All, arith, length, ltb, if◌then◌else◌, if_intro, Bool-cases, map,
  ◌&&◌,
}
use aicrypto_trader.Int.{ℤ, pos, negsuc, pos_part, neg_part, ◌+ℤ◌, ◌*ℤ◌, ltb_ℤ, leb_ℤ, is_zero}
use aicrypto_trader.Float.{Float, lt, nought, literal}

-- A bar with the indicators at it, and the future return of those that have one.
pub record ScoredBar (F : Type 0) : Type 0 where
  pub close : F
  pub volume : F
  pub rsi : F
  pub macd_hist : F
  pub ema20 : F
  pub ema50 : F
  pub mid : F
  pub vol_avg : F
  pub ret_future : F

abbrev pub down : ℤ
down = negsuc 0

-- `min` and `max` of `clip`
abbrev pub clip : ℤ → ℤ → ℤ → ℤ
clip low high v = if ltb_ℤ v low then low else if ltb_ℤ high v then high else v

-- `1 if x > 0 else (-1 if x < 0 else 0)`
abbrev pub direction_of : ℤ → ℤ
direction_of v = if ltb_ℤ (pos 0) v then pos 1 else if ltb_ℤ v (pos 0) then down else pos 0

-- The score, from the four directional signals and the confirmation by the volume.
unfoldable pub score_of : ℤ → ℤ → ℤ → ℤ → ℤ → ℤ
score_of rsi macd ema bb vol =
    let base_score = rsi +ℤ macd +ℤ ema +ℤ bb in
    clip (negsuc 4) (pos 5) (base_score +ℤ vol *ℤ direction_of base_score)

module _ {F : Type 0} ⦃fl : Float F⦄ where
  unfoldable pub momentum : ScoredBar F → ℤ
  momentum b =
      if lt b.rsi (literal 45 0) then down else if lt (literal 55 0) b.rsi then pos 1 else pos 0

  abbrev pub above : F → F → ℤ
  above level x = if lt level x then pos 1 else down

  unfoldable pub confirmation : ScoredBar F → ℤ
  confirmation b = if lt b.vol_avg b.volume then pos 1 else pos 0

  -- `compute_signals`
  unfoldable pub bar_score : ScoredBar F → ℤ
  bar_score b =
      score_of (momentum b) (above nought b.macd_hist) (above b.ema50 b.ema20) (above b.mid b.close)
        (confirmation b)

  abbrev pub goes_up : ScoredBar F → Bool
  goes_up b = lt nought b.ret_future

abbrev pub equal_ℤ : ℤ → ℤ → Bool
equal_ℤ a b = if leb_ℤ a b then leb_ℤ b a else false

-- The rows of `analyse_agreement`, for the scores from -5 to 5, in their order.
abbrev pub scores : List ℤ
scores =
    negsuc 4
    ∷ negsuc 3
    ∷ negsuc 2
    ∷ negsuc 1
    ∷ negsuc 0
    ∷ pos 0
    ∷ pos 1
    ∷ pos 2
    ∷ pos 3
    ∷ pos 4
    ∷ pos 5
    ∷ []

-- The count of a score, and how many of its bars went in the predicted direction; a score of zero
-- predicts none, and has no accuracy.
pub record ScoreRow : Type 0 where
  pub score : ℤ
  pub count : ℕ
  pub correct : Option ℕ

module _ {F : Type 0} ⦃fl : Float F⦄ where
  unfoldable pub count_score : ℤ → List (ScoredBar F) → ℕ
  count_score s [] = 0
  count_score s (b ∷ bs) =
      let rest = count_score s bs in if equal_ℤ (bar_score b) s then suc rest else rest

  abbrev pub is_correct : ℤ → ScoredBar F → Bool
  is_correct s b = if ltb_ℤ (pos 0) s then goes_up b else if goes_up b then false else true

  unfoldable pub count_correct : ℤ → List (ScoredBar F) → ℕ
  count_correct s [] = 0
  count_correct s (b ∷ bs) =
      let rest = count_correct s bs in
      if equal_ℤ (bar_score b) s then if is_correct s b then suc rest else rest else rest

  abbrev pub row_of : List (ScoredBar F) → ℤ → ScoreRow
  row_of bs s = record {
    score = s;
    count = count_score s bs;
    correct = if is_zero s then none else some (count_correct s bs);
  }

  -- `analyse_agreement`
  unfoldable pub analyse_agreement : List (ScoredBar F) → List ScoreRow
  analyse_agreement bs = map (row_of bs) scores

abbrev pub counts : List ScoreRow → ℕ
counts [] = 0
counts (r ∷ rs) = r.count + counts rs
