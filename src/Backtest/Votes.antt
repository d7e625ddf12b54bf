-- ===== src/Backtest/Votes.antt =====
-- backend/scripts/backtest_2_quant.py: the signals of five indicators, their vote, and how often they
-- were right. The indicators are the library's: a bar comes with their values, which may be NaN. The
-- closing prices are a function on the numbers below the length `n` of the column.
use aicrypto_trader.Base.{
  ℕ, suc, ◌+◌, ◌⊎◌, ◌≡◌, refl, ap, ◌∙◌, inl, inr, Bool, List, [], ◌∷◌, All, arith, ltb,
  if◌then◌else◌, if_intro,
}
use aicrypto_trader.Int.{ℤ, pos, negsuc, pos_part, neg_part, ◌+ℤ◌, ltb_ℤ, leb_ℤ, is_zero}
use aicrypto_trader.Float.{Float, le, lt, nought, literal}

-- What a bar has once the indicators are computed.
pub record QuantBar (F : Type 0) : Type 0 where
  pub close : F
  pub rsi : F
  pub macd_hist : F
  pub ema20 : F
  pub ema50 : F
  pub bb_upper : F
  pub bb_lower : F
  pub adx : F

abbrev pub minus_one : ℤ
minus_one = negsuc 0

-- `np.sign`
abbrev pub sign : ℤ → ℤ
sign v = if ltb_ℤ v (pos 0) then minus_one else if ltb_ℤ (pos 0) v then pos 1 else pos 0

-- `sum(axis=1)`
abbrev pub sum_ℤ : List ℤ → ℤ
sum_ℤ [] = pos 0
sum_ℤ (v ∷ vs) = v +ℤ sum_ℤ vs

module _ {F : Type 0} ⦃fl : Float F⦄ where
  -- A later assignment of `df.loc` wins.
  unfoldable pub sig_rsi : QuantBar F → ℤ
  sig_rsi b =
      if lt (literal 70 0) b.rsi
      then minus_one
      else if lt b.rsi (literal 30 0)
      then pos 1
      else pos 0

  unfoldable pub sig_macd : QuantBar F → ℤ
  sig_macd b = if lt nought b.macd_hist then pos 1 else minus_one

  unfoldable pub sig_ema : QuantBar F → ℤ
  sig_ema b = if lt b.ema50 b.ema20 then pos 1 else minus_one

  unfoldable pub sig_bb : QuantBar F → ℤ
  sig_bb b =
      if lt b.bb_upper b.close then minus_one else if lt b.close b.bb_lower then pos 1 else pos 0

  -- NaN averages are neither crossed nor uncrossed.
  unfoldable pub sig_adx : QuantBar F → ℤ
  sig_adx b =
      if lt (literal 25 0) b.adx
      then if le b.ema20 b.ema50 then minus_one else if lt b.ema50 b.ema20 then pos 1 else pos 0
      else pos 0

  -- The columns of `sig_cols`.
  abbrev pub votes : QuantBar F → List ℤ
  votes b = sig_rsi b ∷ sig_macd b ∷ sig_ema b ∷ sig_bb b ∷ sig_adx b ∷ []

  unfoldable pub vote_sum : QuantBar F → ℤ
  vote_sum b = sum_ℤ (votes b)

  -- A tie is long.
  unfoldable pub sig_combined : QuantBar F → ℤ
  sig_combined b = let s = sign (vote_sum b) in if is_zero s then pos 1 else s

-- How many of the votes are for a side.
abbrev pub votes_for : ℤ → List ℤ → ℕ
votes_for side [] = 0
votes_for side (v ∷ vs) =
    let rest = votes_for side vs in
    if leb_ℤ v side then if leb_ℤ side v then suc rest else rest else rest

-- The votes of a bar are -1, 0 or 1.
abbrev pub IsVote : ℤ → Type 0
IsVote v = (v ≡ minus_one) ⊎ ((v ≡ pos 0) ⊎ (v ≡ pos 1))

sum_ℤ-votes_for :
    (vs : List ℤ)
    → All IsVote vs
    → pos_part (sum_ℤ vs) + votes_for minus_one vs ≡ neg_part (sum_ℤ vs) + votes_for (pos 1) vs
sum_ℤ-votes_for [] h = refl
sum_ℤ-votes_for (v ∷ vs) (inl e, hs) = rw e (ground (arith, sum_ℤ-votes_for vs hs))
sum_ℤ-votes_for (v ∷ vs) (inr (inl e), hs) = rw e (ground (arith, sum_ℤ-votes_for vs hs))
sum_ℤ-votes_for (v ∷ vs) (inr (inr e), hs) = rw e (ground (arith, sum_ℤ-votes_for vs hs))

short-IsVote : IsVote minus_one
short-IsVote = inl refl

no-IsVote : IsVote (pos 0)
no-IsVote = inr (inl refl)

long-IsVote : IsVote (pos 1)
long-IsVote = inr (inr refl)

down_or_up : (down up : Bool) → IsVote (if down then minus_one else if up then pos 1 else pos 0)
down_or_up down up =
    if_intro IsVote down _ _ (λ _. short-IsVote)
      (λ _. if_intro IsVote up _ _ (λ _. long-IsVote) (λ _. no-IsVote))

IsVote-if :
    (strong down up : Bool)
    → IsVote (if strong then if down then minus_one else if up then pos 1 else pos 0 else pos 0)
IsVote-if strong down up = if_intro IsVote strong _ _ (λ _. down_or_up down up) (λ _. no-IsVote)

up_or_down : (up : Bool) → IsVote (if up then pos 1 else minus_one)
up_or_down up = if_intro IsVote up _ _ (λ _. long-IsVote) (λ _. short-IsVote)

ltb_moved : (p n l m : ℕ) → p + m ≡ n + l → ltb p n ≡ ltb l m
ltb_moved p n l m h = ground arith

module _ {F : Type 0} ⦃fl : Float F⦄ where
  votes-IsVote : (b : QuantBar F) → All IsVote (votes b)
  unfolding sig_rsi sig_macd sig_ema sig_bb sig_adx
  votes-IsVote b = (
    down_or_up _ _,
    (up_or_down _, (up_or_down _, (down_or_up _ _, (IsVote-if (lt (literal 25 0) b.adx) _ _, tt)))),
  )

  combined_of_sum :
      (b : QuantBar F)
      → sig_combined b
        ≡ (if ltb (pos_part (vote_sum b)) (neg_part (vote_sum b)) then minus_one else pos 1)
  unfolding sig_combined
  combined_of_sum b = ground arith

  -- The combined signal follows the majority of the five: it is short if more of them are short than
  -- long, and long otherwise, also at a tie and when none says anything.
  pub sig_combined-majority :
      (b : QuantBar F)
      → sig_combined b ≡ (
          if ltb (votes_for (pos 1) (votes b)) (votes_for minus_one (votes b))
          then minus_one
          else pos 1)
  unfolding vote_sum
  sig_combined-majority b =
      combined_of_sum b
      ∙ ap (λ (t : Bool). if t then minus_one else pos 1)
          (ltb_moved _ _ _ _ (sum_ℤ-votes_for (votes b) (votes-IsVote b)))
