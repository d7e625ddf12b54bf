-- ===== src/Ml/Kronos.antt =====
-- backend/src/cryptoswarm/ml/kronos_model.py: the signals from the forecast closes.
-- The vendored model is a parameter: the closes that it forecasts from the candles, where `none` is
-- an exception. `std` is NumPy's. Time stamps and the lazy loading of the model are its own.
use aicrypto_trader.Base.{
  ℕ, zero, suc, ◌≤◌, ◌≡◌, refl, Option, none, some, List, [], ◌∷◌, length, arith, if◌then◌else◌,
}
use aicrypto_trader.Int.{pos}
use aicrypto_trader.Float.{Float, ◌⊕◌, ◌⊖◌, ◌⊗◌, ◌⊘◌, lt, fmin, nought, literal, of_int}
use aicrypto_trader.Agents.Messages.{
  Regime, trending_up, trending_down, ranging, volatile, Direction, up, down,
}
use aicrypto_trader.Agents.Quant.{Kline}

-- Regime, direction, short direction, confidence.
abbrev pub Signals : Type 0 → Type 0
Signals F = Regime × Direction × Direction × F

module _ {F : Type 0} ⦃fl : Float F⦄ where
  abbrev pub neutral_signals : Signals F
  neutral_signals = (ranging, up, up, nought)

  abbrev pub direction_to : F → F → Direction
  direction_to current target = if lt current target then up else down

  -- `closes[-1]`, and `closes[min(n, len(closes) - 1)]`, of the closes `c ∷ cs`.
  abbrev pub closing_at_end : F → List F → F
  closing_at_end c [] = c
  closing_at_end c (d ∷ ds) = closing_at_end d ds

  unfoldable pub closing_at : ℕ → F → List F → F
  closing_at zero c cs = c
  closing_at (suc n) c [] = c
  closing_at (suc n) c (d ∷ ds) = closing_at n d ds

  -- `np.diff`, and the differences relative to the earlier close.
  abbrev pub changes : F → List F → List F
  changes c [] = []
  changes c (d ∷ ds) = (d ⊖ c) ∷ changes d ds

  -- `1e-9`
  abbrev pub epsilon : F
  epsilon = literal 1 9

  abbrev pub returns : F → List F → List F
  returns c [] = []
  returns c (d ∷ ds) = (d ⊖ c) ⊘ (fl.abs c ⊕ epsilon) ∷ returns d ds

  abbrev pub volatility : (List F → F) → List F → F
  volatility std [] = nought
  volatility std (r ∷ rs) = std (r ∷ rs)

  unfoldable pub regime_of : F → F → Regime
  regime_of vol slope =
      if lt (literal 12 3) vol
      then volatile
      else if lt (fl.abs slope) (literal 2 3)
      then ranging
      else if lt nought slope
      then trending_up
      else trending_down

  abbrev pub rises : List F → ℕ
  rises [] = 0
  rises (x ∷ xs) = if lt nought x then suc (rises xs) else rises xs

  abbrev pub falls : List F → ℕ
  falls [] = 0
  falls (x ∷ xs) = if lt x nought then suc (falls xs) else falls xs

  -- The share of the changes in the direction.
  unfoldable pub consistency : Direction → List F → F
  consistency d [] = literal 5 1
  consistency up (x ∷ xs) = of_int (pos (rises (x ∷ xs))) ⊘ of_int (pos (length (x ∷ xs)))
  consistency down (x ∷ xs) = of_int (pos (falls (x ∷ xs))) ⊘ of_int (pos (length (x ∷ xs)))

  abbrev pub magnitude : F → F → F
  magnitude current last =
      fmin (fl.abs (last ⊖ current) ⊘ (fl.abs current ⊕ epsilon) ⊗ literal 20 0) (literal 1 0)

  -- `_derive_signals`
  unfoldable pub derive_signals : (List F → F) → F → List F → Signals F
  derive_signals std current [] = neutral_signals
  derive_signals std current (c ∷ cs) =
      let last = closing_at_end c cs in
      let direction = direction_to current last in
      let slope = (last ⊖ c) ⊘ (fl.abs c ⊕ epsilon) in
      (
        regime_of (volatility std (returns c cs)) slope,
        direction,
        direction_to current (closing_at 14 c cs),
        fl.round
            (literal 6 1 ⊗ consistency direction (changes c cs)
              ⊕ literal 4 1 ⊗ magnitude current last)
            4,
      )

  abbrev pub current_close : Kline F → List (Kline F) → F
  current_close k [] = k.close
  current_close k (l ∷ ls) = current_close l ls

  abbrev pub derive_or_neutral : (List F → F) → F → Option (List F) → Signals F
  derive_or_neutral std current none = neutral_signals
  derive_or_neutral std current (some closes) = derive_signals std current closes

  -- `predict`
  unfoldable pub predict_signals :
      (List F → F) → (List (Kline F) → Option (List F)) → List (Kline F) → Signals F
  predict_signals std forecast [] = neutral_signals
  predict_signals std forecast (k ∷ ks) =
      derive_or_neutral std (current_close k ks) (forecast (k ∷ ks))

  closing_at-closing_at_end :
      (n : ℕ) (c : F) (cs : List F) → length cs ≤ n → closing_at n c cs ≡ closing_at_end c cs
  unfolding closing_at
  closing_at-closing_at_end zero c [] h = refl
  closing_at-closing_at_end zero c (d ∷ ds) h = absurd (omega (arith, h))
  closing_at-closing_at_end (suc n) c [] h = refl
  closing_at-closing_at_end (suc n) c (d ∷ ds) h =
      closing_at-closing_at_end n d ds (omega (arith, h))

  -- A forecast of at most fifteen closes gives one direction for both horizons.
  pub short_forecast_agrees :
      (std : List F → F) (current c : F) (cs : List F)
      → length cs ≤ 14
      → (derive_signals std current (c ∷ cs)).1 ≡ (derive_signals std current (c ∷ cs)).2
  unfolding derive_signals
  short_forecast_agrees std current c cs h = rw (closing_at-closing_at_end 14 c cs h) refl
