-- ===== src/Backtest/Windows.antt =====
-- `backtest_symbol` of backend/scripts/backtest_1_kronos.py, which slides the same windows over all
-- bars of a symbol as backtest_6_walkforward.py does over those of a fold, and also judges the short
-- forecast. The forecast of a window is a parameter; `none` is an exception of it.
use aicrypto_trader.Base.{
  ℕ, zero, suc, ◌+◌, ◌-◌, ◌<◌, ◌≡◌, refl, sym, ap, ◌∙◌, Option, none, some, Bool, true, List, [],
  ◌∷◌, All, map, Bool-cases, inl, inr, length, take, ltb, leb, arith, if◌then◌else◌,
}
use aicrypto_trader.Float.{Float, lt}
use aicrypto_trader.Agents.Messages.{Direction, Regime, up, down}
use aicrypto_trader.Agents.Ml.{Forecast}
use aicrypto_trader.Backtest.StopTake.{Bar, SimulatedTrade, simulate_trade}
use aicrypto_trader.Backtest.Folds.{
  FoldRow, seq_len, pred_len, step_bars, sl_pct, tp_pct, drop, same_direction, side_of, first_close,
  fold_row, add_result, fold_rows, backtest_fold, IsInside, backtest_fold_ends,
}

-- A row of the results, at the bar of the index `at`.
pub record WindowRow (F : Type 0) : Type 0 where
  pub at : ℕ
  pub entry_price : F
  pub regime : Regime
  pub pred_direction : Direction
  pub pred_short : Direction
  pub confidence : F
  pub actual_direction : Direction
  pub actual_short : Direction
  pub dir_correct : Bool
  pub short_correct : Bool
  pub trade : SimulatedTrade F

abbrev pub least : ℕ → ℕ → ℕ
least m n = if leb m n then m else n

module _ {F : Type 0} ⦃fl : Float F⦄ where
  -- df["close"].iloc[min(i + ahead, len(df) - 1)]
  abbrev pub close_ahead : List (Bar F) → ℕ → ℕ → F
  close_ahead bars i ahead = first_close (drop (least (i + ahead) (length bars - 1)) bars)

  abbrev pub went : F → F → Direction
  went entry future = if lt entry future then up else down

  unfoldable pub window_row : ℕ → List (Bar F) → Forecast F → WindowRow F
  window_row i bars f =
      let entry_px = first_close (drop i bars) in
      let actual_dir = went entry_px (close_ahead bars i pred_len) in
      let actual_short = went entry_px (close_ahead bars i 15) in
      record {
        at = i;
        entry_price = entry_px;
        regime = f.regime;
        pred_direction = f.direction;
        pred_short = f.short_direction;
        confidence = f.confidence;
        actual_direction = actual_dir;
        actual_short = actual_short;
        dir_correct = same_direction f.direction actual_dir;
        short_correct = same_direction f.short_direction actual_short;
        trade =
            simulate_trade sl_pct tp_pct (take pred_len (drop i bars)) (side_of f.direction)
              entry_px;
      }

  abbrev pub add_window :
      ℕ → List (Bar F) → Option (Forecast F) → List (WindowRow F) → List (WindowRow F)
  add_window i bars none rows = rows
  add_window i bars (some f) rows = window_row i bars f ∷ rows

  -- The loop from the bar `i` on, which runs out of fuel with `none`.
  unfoldable pub window_rows :
      (List (Bar F) → Option (Forecast F)) → List (Bar F) → ℕ → ℕ → Option (List (WindowRow F))
  window_rows model bars zero i = none
  window_rows model bars (suc fuel) i =
      let later = window_rows model bars fuel (i + step_bars) in
      if ltb (i + pred_len) (length bars)
      then elim later [
        | none ↦ none
        | some rows ↦ some (add_window i bars (model (take seq_len (drop (i - seq_len) bars))) rows)
      ]
      else some []

  unfoldable pub backtest_symbol :
      (List (Bar F) → Option (Forecast F)) → List (Bar F) → Option (List (WindowRow F))
  backtest_symbol model bars = window_rows model bars (suc (length bars)) seq_len

  -- The columns that the folds have too.
  abbrev pub common : WindowRow F → FoldRow F
  common r = record {
    at = r.at;
    entry_price = r.entry_price;
    pred_direction = r.pred_direction;
    confidence = r.confidence;
    actual_direction = r.actual_direction;
    dir_correct = r.dir_correct;
    trade = r.trade;
  }

  abbrev pub commons : Option (List (WindowRow F)) → Option (List (FoldRow F))
  commons none = none
  commons (some rows) = some (map common rows)

  abbrev pub long_forecast : Option (Forecast F) → Option (Direction × F)
  long_forecast none = none
  long_forecast (some f) = some (f.direction, f.confidence)

  window_row-fold_row :
      (i : ℕ) (bars : List (Bar F)) (f : Forecast F)
      → i + pred_len < length bars
      → common (window_row i bars f) ≡ fold_row i bars (f.direction, f.confidence)
  unfolding window_row
  window_row-fold_row i bars f h =
      let inside : leb (i + pred_len) (length bars - 1) ≡ true = ground (arith, h) in rw inside refl

  add_window-add_result :
      (i : ℕ) (bars : List (Bar F)) (o : Option (Forecast F)) (rows : List (WindowRow F))
      → i + pred_len < length bars
      → map common (add_window i bars o rows)
        ≡ add_result i bars (long_forecast o) (map common rows)
  add_window-add_result i bars none rows h = refl
  add_window-add_result i bars (some f) rows h =
      ap (λ r. r ∷ map common rows) (window_row-fold_row i bars f h)

  window_rows-fold_rows :
      (model : List (Bar F) → Option (Forecast F)) (bars : List (Bar F)) (fuel i : ℕ)
      → commons (window_rows model bars fuel i)
        ≡ fold_rows (λ window. long_forecast (model window)) bars fuel i
  unfolding window_rows fold_rows
  window_rows-fold_rows model bars zero i = refl
  window_rows-fold_rows model bars (suc fuel) i =
      elim (Bool-cases (ltb (i + pred_len) (length bars))) [
        | inr e ↦ rw e refl
        | inl e ↦
            rw (e, ← window_rows-fold_rows model bars fuel (i + step_bars))
              (go (window_rows model bars fuel (i + step_bars)) (ground (arith, e)))
      ]
    where
      go :
          (later : Option (List (WindowRow F)))
          → i + pred_len < length bars
          → commons (elim later [
            | none ↦ none
            | some rows ↦
                some (add_window i bars (model (take seq_len (drop (i - seq_len) bars))) rows)
          ])
            ≡ (elim (commons later) [
              | none ↦ none
              | some rows ↦ some (
                  add_result i bars
                    (long_forecast (model (take seq_len (drop (i - seq_len) bars))))
                    rows)
            ])
      go none h = refl
      go (some rows) h =
          ap (λ rs. some rs)
            (add_window-add_result i bars (model (take seq_len (drop (i - seq_len) bars))) rows h)

  -- The windows of a symbol are those of a fold with the same bars: backtest_1 ends for every model,
  -- and in the columns that both have, backtest_6 gives the same rows.
  pub backtest_symbol-backtest_fold :
      (model : List (Bar F) → Option (Forecast F)) (bars : List (Bar F))
      → (rows : List (WindowRow F)) × (backtest_symbol model bars ≡ some rows)
        × (backtest_fold (λ window. long_forecast (model window)) bars ≡ some (map common rows))
  unfolding backtest_symbol backtest_fold
  backtest_symbol-backtest_fold model bars =
      go (backtest_symbol model bars) refl
        (window_rows-fold_rows model bars (suc (length bars)) seq_len)
        (backtest_fold_ends (λ window. long_forecast (model window)) bars)
    where
      go :
          (o : Option (List (WindowRow F)))
          → backtest_symbol model bars ≡ o
          → commons (backtest_symbol model bars)
            ≡ backtest_fold (λ window. long_forecast (model window)) bars
          → (found : List (FoldRow F)) × (backtest_fold
                (λ window. long_forecast (model window))
                bars
              ≡ some found)
            × All (IsInside bars) found
          → (rows : List (WindowRow F)) × (backtest_symbol model bars ≡ some rows)
            × (backtest_fold (λ window. long_forecast (model window)) bars ≡ some (map common rows))
      go none e same (found, ends, inside) = absurd (cc (rw e at same, ends))
      go (some rows) e same ends = (rows, e, sym same ∙ ap commons e)
