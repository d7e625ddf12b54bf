-- ===== src/Ml/Features/Shape.antt =====
-- The shape of what ml/features.py builds.
use aicrypto_trader.Base.{
  ℕ, zero, suc, ◌+◌, ◌-◌, String, Option, none, some, List, ◌∷◌, length, take, ltb, All, ◌≡◌, refl,
  arith, ap, if_intro, ◌>>=◌,
}
use aicrypto_trader.Float.{Float}
use aicrypto_trader.Agents.Quant.{Kline}
use aicrypto_trader.Ml.Features.{
  vector_size, min_bars, FeatureOutside, get_news_features, compute_features, features_or_zeros,
  enough_bars, build_features, window_features, zero_rows, rows_or_zeros, build_sequence,
}

module _ {F : Type 0} ⦃fl : Float F⦄ where
  abbrev pub IsVector : List F → Type 0
  IsVector v = length v ≡ vector_size

  abbrev pub AllVectors : List (List F) → Type 0
  AllVectors vs = All IsVector vs

  abbrev OfSize : Option (List F) → Type 0
  OfSize none = Unit
  OfSize (some v) = IsVector v

  bind-OfSize :
      (A : Type 0) (o : Option A) (f : A → Option (List F))
      → ((a : A) → OfSize (f a))
      → OfSize (o >>= f)
  bind-OfSize A none f h = tt
  bind-OfSize A (some a) f h = h a

  compute_features-size :
      (out : FeatureOutside F) (rows : List (Kline F)) (news : F × ℕ)
      → OfSize (compute_features out rows news)
  unfolding compute_features
  compute_features-size out rows (news_score, news_count) = ground arith

  or_zeros-size : (o : Option (List F)) → OfSize o → IsVector (features_or_zeros o)
  or_zeros-size none h = refl
  or_zeros-size (some v) h = h

  abbrev IsShaped : ℕ → List (List F) → Type 0
  IsShaped n vs = (length vs ≡ n) × AllVectors vs

  abbrev Shaped : ℕ → Option (List (List F)) → Type 0
  Shaped n none = Unit
  Shaped n (some vs) = IsShaped n vs

  add_row :
      (n : ℕ) (v : Option (List F)) (vs : Option (List (List F)))
      → OfSize v
      → Shaped n vs
      → Shaped (suc n) (v >>= (λ w. vs >>= (λ ws. some (w ∷ ws))))
  add_row n none vs h s = tt
  add_row n (some w) none h s = tt
  add_row n (some w) (some ws) h (size, all) = (ap suc size, (h, all))

  window_features-Shaped :
      (out : FeatureOutside F) (rows : List (Kline F)) (news : F × ℕ) (n : ℕ)
      → Shaped n (window_features out rows news n)
  unfolding window_features
  window_features-Shaped out rows news zero = (refl, tt)
  window_features-Shaped out rows news (suc n) =
      add_row n (compute_features out (take (length rows - n) rows) news)
        (window_features out rows news n)
        (compute_features-size out (take (length rows - n) rows) news)
        (window_features-Shaped out rows news n)

  rows_or_zeros-IsShaped :
      (n : ℕ) (o : Option (List (List F))) → Shaped n o → IsShaped n (rows_or_zeros n o)
  rows_or_zeros-IsShaped n none h = go n
    where
      go : (m : ℕ) → IsShaped m (zero_rows m)
      go zero = (refl, tt)
      go (suc m) = let (size, all) = go m in (ap suc size, (refl, all))
  rows_or_zeros-IsShaped n (some vs) h = h

  -- What follows the bars, when there are enough.
  guarded :
      {B : Type 0} (P : Option B → Type 0) (o : Option (List (Kline F))) (n : ℕ)
      (f : List (Kline F) → Option B)
      → P none
      → ((rows : List (Kline F)) → P (f rows))
      → P (o >>= (λ rows. enough_bars n rows >>= f))
  guarded P none n f h k = h
  guarded P (some rows) n f h k =
      if_intro (λ (o : Option (List (Kline F))). P (o >>= f)) (ltb (length rows) n) _ _ (λ _. h)
        (λ _. k rows)

  -- Whatever the database, the indicators and NumPy give or fail with, the features of a symbol are
  -- exactly 25 numbers, and a sequence of them has exactly as many rows as are asked for, each of 25
  -- numbers.
  pub features-IsShaped :
      (out : FeatureOutside F) (symbol : String) (lookback : ℕ)
      → IsVector (build_features out symbol)
        × (length (build_sequence out symbol lookback) ≡ lookback)
        × AllVectors (build_sequence out symbol lookback)
  unfolding build_features build_sequence
  features-IsShaped out symbol lookback =
      let news = get_news_features (out.fetch_news symbol) in
      let one = or_zeros-size _ (
        guarded OfSize (out.fetch_klines symbol 200) min_bars
          (λ rows. compute_features out rows news) tt
          (λ rows. compute_features-size out rows news)) in
      let many = rows_or_zeros-IsShaped lookback _ (
        guarded (Shaped lookback) (out.fetch_klines symbol (lookback + 200)) (min_bars + lookback)
          (λ rows. window_features out rows news lookback) tt
          (λ rows. window_features-Shaped out rows news lookback)) in
      (one, many.0, many.1)
