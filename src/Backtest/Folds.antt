-- ===== src/Backtest/Folds.antt =====
-- `backtest_fold` of backend/scripts/backtest_6_walkforward.py: forecasts on windows that slide over
-- the bars of a fold. The forecast of a window is a parameter; `none` is an exception of it.
use aicrypto_trader.Base.{
  ℕ, zero, suc, ◌+◌, ◌-◌, ◌≤◌, ◌<◌, ◌≡◌, refl, Option, none, some, Bool, true, false, List, [], ◌∷◌,
  All, length, take, ltb, arith, if◌then◌else◌, Bool-cases, inl, inr,
}
use aicrypto_trader.Float.{Float, lt, literal, nought}
use aicrypto_trader.Bus.Messages.{Side, long, short}
use aicrypto_trader.Agents.Messages.{Direction, up, down}
use aicrypto_trader.Backtest.StopTake.{Bar, SimulatedTrade, simulate_trade}

abbrev pub seq_len : ℕ
seq_len = 512

abbrev pub pred_len : ℕ
pred_len = 60

-- STEP_HOURS * 60
abbrev pub step_bars : ℕ
step_bars = 240

abbrev pub sl_pct : {F : Type 0} ⦃fl : Float F⦄ → F
sl_pct = literal 2 2

abbrev pub tp_pct : {F : Type 0} ⦃fl : Float F⦄ → F
tp_pct = literal 4 2

abbrev pub drop : {A : Type 0} → ℕ → List A → List A
drop zero xs = xs
drop (suc n) [] = []
drop (suc n) (x ∷ xs) = drop n xs

abbrev pub same_direction : Direction → Direction → Bool
same_direction up up = true
same_direction down down = true
same_direction up down = false
same_direction down up = false

abbrev pub side_of : Direction → Side
side_of up = long
side_of down = short

-- A row of the results, at the bar of the index `at`.
pub record FoldRow (F : Type 0) : Type 0 where
  pub at : ℕ
  pub entry_price : F
  pub pred_direction : Direction
  pub confidence : F
  pub actual_direction : Direction
  pub dir_correct : Bool
  pub trade : SimulatedTrade F

module _ {F : Type 0} ⦃fl : Float F⦄ where
  -- `test_df["close"].iloc[i]`, where the code has the bar.
  abbrev pub first_close : List (Bar F) → F
  first_close [] = nought
  first_close (b ∷ bs) = b.close

  abbrev pub fold_row : ℕ → List (Bar F) → Direction × F → FoldRow F
  fold_row i bars (direction, conf) =
      let entry = first_close (drop i bars) in
      let actual = if lt entry (first_close (drop (i + pred_len) bars)) then up else down in
      record {
        at = i;
        entry_price = entry;
        pred_direction = direction;
        confidence = conf;
        actual_direction = actual;
        dir_correct = same_direction direction actual;
        trade =
            simulate_trade sl_pct tp_pct (take pred_len (drop i bars)) (side_of direction) entry;
      }

  abbrev pub add_result :
      ℕ → List (Bar F) → Option (Direction × F) → List (FoldRow F) → List (FoldRow F)
  add_result i bars none rows = rows
  add_result i bars (some forecast) rows = fold_row i bars forecast ∷ rows

  -- The loop from the bar `i` on, which runs out of fuel with `none`.
  unfoldable pub fold_rows :
      (List (Bar F) → Option (Direction × F)) → List (Bar F) → ℕ → ℕ → Option (List (FoldRow F))
  fold_rows model bars zero i = none
  fold_rows model bars (suc fuel) i =
      let later = fold_rows model bars fuel (i + step_bars) in
      if ltb (i + pred_len) (length bars)
      then elim later [
        | none ↦ none
        | some rows ↦ some (add_result i bars (model (take seq_len (drop (i - seq_len) bars))) rows)
      ]
      else some []

  unfoldable pub backtest_fold :
      (List (Bar F) → Option (Direction × F)) → List (Bar F) → Option (List (FoldRow F))
  backtest_fold model bars = fold_rows model bars (suc (length bars)) seq_len

  -- A row whose window and whose future are inside the bars, with the right answer marked.
  abbrev pub IsInside : List (Bar F) → FoldRow F → Type 0
  IsInside bars r =
      (seq_len ≤ r.at)
      × (r.at + pred_len < length bars)
      × (r.dir_correct ≡ same_direction r.pred_direction r.actual_direction)

  fold_rows_end :
      (model : List (Bar F) → Option (Direction × F)) (bars : List (Bar F)) (fuel i : ℕ)
      → seq_len ≤ i
      → length bars < fuel + i
      → 0 < fuel
      → (rows : List (FoldRow F)) × (fold_rows model bars fuel i ≡ some rows)
        × All (IsInside bars) rows
  unfolding fold_rows
  fold_rows_end model bars zero i s h f = absurd (omega (arith, f))
  fold_rows_end model bars (suc fuel) i s h f =
      elim (Bool-cases (ltb (i + pred_len) (length bars))) [
        | inr e ↦ ([], rw (e, fold_rows) refl, tt)
        | inl e ↦
            let inside : i + pred_len < length bars = ground (arith, e) in
            let (rows, r, all) =
              fold_rows_end model bars fuel (i + step_bars) (omega (arith, s)) (omega (arith, h))
                (omega (arith, h, inside)) in
            go (model (take seq_len (drop (i - seq_len) bars))) refl e inside rows r all
      ]
    where
      go :
          (o : Option (Direction × F))
          → model (take seq_len (drop (i - seq_len) bars)) ≡ o
          → ltb (i + pred_len) (length bars) ≡ true
          → i + pred_len < length bars
          → (rows : List (FoldRow F)) → fold_rows model bars fuel (i + step_bars) ≡ some rows
          → All (IsInside bars) rows
          → (rows' : List (FoldRow F)) × (fold_rows model bars (suc fuel) i ≡ some rows')
            × All (IsInside bars) rows'
      go none m e inside rows r all = (rows, rw (e, r, m, fold_rows) refl, all)
      go (some forecast) m e inside rows r all =
          (fold_row i bars forecast ∷ rows, rw (e, r, m, fold_rows) refl, ((s, inside, refl), all))

  -- A fold ends for every number of bars and every model, and each of its rows has a whole window
  -- before it and a whole future after it among the bars.
  pub backtest_fold_ends :
      (model : List (Bar F) → Option (Direction × F)) (bars : List (Bar F))
      → (rows : List (FoldRow F)) × (backtest_fold model bars ≡ some rows)
        × All (IsInside bars) rows
  unfolding backtest_fold
  backtest_fold_ends model bars =
      fold_rows_end model bars (suc (length bars)) seq_len (omega arith) (omega arith) (omega arith)
