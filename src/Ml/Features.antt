-- ===== src/Ml/Features.antt =====
-- backend/src/cryptoswarm/ml/features.py: the feature vector of a symbol.
-- The indicator library and NumPy are parameters; `none` is an exception. A value that pandas
-- computes from a whole column is an indicator as well.
pub mod Shape
use aicrypto_trader.Base.{
  ℕ, zero, suc, ◌+◌, ◌-◌, String, Option, none, some, List, [], ◌∷◌, ◌++◌, length, take, ltb, leb,
  ◌==◌, map, All, arith, ap, if_intro, ◌≡◌, refl, if◌then◌else◌, ◌>>=◌,
}
use aicrypto_trader.Int.{pos}
use aicrypto_trader.Float.{Float, ◌⊕◌, ◌⊖◌, ◌⊗◌, ◌⊘◌, eq, fmin, nought, literal, of_int, sum_from}
use aicrypto_trader.Agents.Quant.{Kline}
use aicrypto_trader.Agents.Sentiment.{NewsRow, weights, weighted_scores}

abbrev pub vector_size : ℕ
vector_size = 25

abbrev pub min_bars : ℕ
min_bars = 60

-- The last values of the indicators of the library, and the means of the columns.
pub record TaValues (F : Type 0) : Type 0 where
  pub rsi : F
  pub macd_diff : F
  pub bb_pband : F
  pub bb_wband : F
  pub ema20 : F
  pub ema50 : F
  pub atr : F
  pub vol_mean20 : F
  pub obv : F
  pub adx : F
  pub ema50_diff5 : F
  pub close_mean50 : F
  pub close_std50 : F
  pub stochrsi : F
  pub returns_std20 : F
  pub close_mean : F
  pub vol_mean : F

-- `clean` is the conversion to float32 with `np.nan_to_num`.
pub record FeatureOutside (F : Type 0) : Type 0 where
  pub fetch_klines : String → ℕ → Option (List (Kline F))
  pub fetch_news : String → Option (List (NewsRow F))
  pub indicators : List (Kline F) → Option (TaValues F)
  pub clip : F → F → F → F
  pub sign : F → F
  pub clean : F → F

-- `xs.iloc[-n]` for a number from one on.
unfoldable pub from_end : {A : Type 0} → ℕ → List A → Option A
from_end n [] = none
from_end n (x ∷ xs) = let rest = from_end n xs in if suc (length xs) == n then some x else rest

module _ {F : Type 0} ⦃fl : Float F⦄ where
  -- `x or default`
  abbrev pub or_else : F → F → F
  or_else x default = if eq x nought then default else x

  -- Division of Python floats.
  abbrev pub quotient : F → F → Option F
  quotient a b = if eq b nought then none else some (a ⊘ b)

  -- `1e-9`
  abbrev pub tiny : F
  tiny = literal 1 9

  -- `_get_news_features`
  unfoldable pub get_news_features : Option (List (NewsRow F)) → F × ℕ
  get_news_features none = (nought, 0)
  get_news_features (some []) = (nought, 0)
  get_news_features (some (r ∷ rs)) =
      let rows = r ∷ rs in
      let total_w = sum_from nought (weights rows) in
      if eq total_w nought
      then (nought, 0)
      else (sum_from nought (weighted_scores rows) ⊘ total_w, length rows)

  abbrev pub news_present : ℕ → F
  news_present n = if ltb 0 n then literal 1 0 else literal 0 0

  -- The return over the last bars.
  abbrev pub return_since : F → F → F
  return_since now before = (now ⊖ before) ⊘ (before ⊕ tiny)

  -- `_compute`
  unfoldable pub compute_features : FeatureOutside F → List (Kline F) → F × ℕ → Option (List F)
  compute_features out rows (news_score, news_count) = do
    t ← out.indicators rows
    last ← from_end 1 rows
    back2 ← from_end 2 rows
    back4 ← from_end 4 rows
    back11 ← from_end 11 rows
    back5 ← from_end 5 rows
    ema_cross ← quotient (or_else t.ema20 last.close ⊖ or_else t.ema50 last.close) last.close
    atr_norm ← quotient (or_else t.atr nought) last.close
    vol_ratio ← quotient last.volume (or_else t.vol_mean20 t.vol_mean ⊕ tiny)
    obv_norm ← quotient (or_else t.obv nought) (t.close_mean ⊗ t.vol_mean ⊕ tiny)
    ema50_slope ← quotient (or_else t.ema50_diff5 nought) last.close
    close_norm ←
        quotient (last.close ⊖ or_else t.close_mean50 t.close_mean)
          (or_else t.close_std50 (literal 1 0) ⊕ tiny)
    macd ← quotient (or_else t.macd_diff nought) (t.close_mean ⊕ tiny)
    some (
        map out.clean (
          ((or_else t.rsi (literal 50 0) ⊖ literal 50 0) ⊘ literal 50 0)
          ∷ macd
          ∷ (or_else t.bb_pband (literal 5 1) ⊖ literal 5 1)
          ∷ ema_cross
          ∷ (or_else t.stochrsi (literal 5 1) ⊖ literal 5 1)
          ∷ (fmin atr_norm (literal 1 1) ⊗ literal 10 0)
          ∷ (fmin (or_else t.bb_wband nought) (literal 2 1) ⊗ literal 5 0)
          ∷ (fmin (vol_ratio ⊖ literal 1 0) (literal 3 0) ⊘ literal 3 0)
          ∷ (fmin (fl.abs obv_norm) (literal 1 0) ⊗ out.sign obv_norm)
          ∷ nought
          ∷ (or_else t.adx nought ⊘ literal 100 0)
          ∷ (out.clip (ema50_slope ⊗ literal 100 0) (fl.neg (literal 1 0)) (literal 1 0))
          ∷ (out.clip close_norm (fl.neg (literal 3 0)) (literal 3 0) ⊘ literal 3 0)
          ∷ news_score
          ∷ (fmin (of_int (pos news_count) ⊘ literal 20 0) (literal 1 0))
          ∷ (news_present news_count)
          ∷ (out.clip (return_since last.close back2.close ⊗ literal 100 0) (fl.neg (literal 1 0))
              (literal 1 0))
          ∷ (out.clip (return_since last.close back4.close ⊗ literal 100 0) (fl.neg (literal 1 0))
              (literal 1 0))
          ∷ (out.clip (return_since last.close back11.close ⊗ literal 100 0) (fl.neg (literal 1 0))
              (literal 1 0))
          ∷ (fmin (or_else t.returns_std20 (literal 1 2) ⊗ literal 100 0) (literal 1 0))
          ∷ (fmin ((last.high ⊖ last.low) ⊘ (last.close ⊕ tiny) ⊗ literal 50 0) (literal 1 0))
          ∷ (fmin (last.volume ⊘ (back5.volume ⊕ tiny) ⊖ literal 1 0) (literal 2 0) ⊘ literal 2 0)
          ∷ nought
          ∷ nought
          ∷ nought
          ∷ []))

  -- `np.zeros`
  abbrev pub zeros : ℕ → List F
  zeros zero = []
  zeros (suc n) = nought ∷ zeros n

  abbrev pub features_or_zeros : Option (List F) → List F
  features_or_zeros none = zeros vector_size
  features_or_zeros (some xs) = xs

  abbrev pub enough_bars : ℕ → List (Kline F) → Option (List (Kline F))
  enough_bars n rows = if ltb (length rows) n then none else some rows

  -- `build`: too few bars and exceptions give zeros.
  unfoldable pub build_features : FeatureOutside F → String → List F
  build_features out symbol = features_or_zeros (do
    rows ← out.fetch_klines symbol 200
    enough ← enough_bars min_bars rows
    compute_features out enough (get_news_features (out.fetch_news symbol)))

  -- The vectors of the windows that end `i` - 1 bars before the last one, for `i` down to one.
  unfoldable pub window_features :
      FeatureOutside F → List (Kline F) → F × ℕ → ℕ → Option (List (List F))
  window_features out rows news zero = some []
  window_features out rows news (suc i) = do
    v ← compute_features out (take (length rows - i) rows) news
    vs ← window_features out rows news i
    some (v ∷ vs)

  abbrev pub zero_rows : ℕ → List (List F)
  zero_rows zero = []
  zero_rows (suc n) = zeros vector_size ∷ zero_rows n

  abbrev pub rows_or_zeros : ℕ → Option (List (List F)) → List (List F)
  rows_or_zeros lookback none = zero_rows lookback
  rows_or_zeros lookback (some vs) = vs

  -- `build_sequence`
  unfoldable pub build_sequence : FeatureOutside F → String → ℕ → List (List F)
  build_sequence out symbol lookback = rows_or_zeros lookback (do
    rows ← out.fetch_klines symbol (lookback + 200)
    enough ← enough_bars (min_bars + lookback) rows
    window_features out enough (get_news_features (out.fetch_news symbol)) lookback)
