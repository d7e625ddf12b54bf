-- ===== src/Backtest/StopTake.antt =====
-- The trades of backend/scripts/backtest_5_sltp.py and backend/scripts/backtest_6_walkforward.py: an
-- entry, a stop loss and a take profit on bars, whose prices are not zero.
use aicrypto_trader.Base.{
  ℕ, ◌+◌, ◌≡◌, refl, Option, none, some, Bool, List, [], ◌∷◌, length, arith, if◌then◌else◌,
  Option-cases, inl, inr,
}
use aicrypto_trader.Int.{pos}
use aicrypto_trader.Float.{Float, ◌⊕◌, ◌⊖◌, ◌⊗◌, ◌⊘◌, le, lt, nought, literal, of_int, sum_from}
use aicrypto_trader.Bus.Messages.{Side, long, short}

-- `long` and `short` of the table are the two signals at the bar.
pub record Bar (F : Type 0) : Type 0 where
  pub high : F
  pub low : F
  pub close : F
  pub long_signal : Bool
  pub short_signal : Bool

pub data TradeOutcome : Type 0 where
  hit_sl hit_tp timeout : TradeOutcome

-- The dictionary that `simulate_trade` returns.
pub record SimulatedTrade (F : Type 0) : Type 0 where
  pub outcome : TradeOutcome
  pub pnl_pct : F
  pub bars : ℕ

module _ {F : Type 0} ⦃fl : Float F⦄ where
  abbrev pub one : F
  one = literal 1 0

  abbrev pub negated : F → F
  negated x = fl.neg x

  abbrev pub sl_price : Side → F → F → F
  sl_price long entry sl = entry ⊗ (one ⊖ sl)
  sl_price short entry sl = entry ⊗ (one ⊕ sl)

  abbrev pub tp_price : Side → F → F → F
  tp_price long entry tp = entry ⊗ (one ⊕ tp)
  tp_price short entry tp = entry ⊗ (one ⊖ tp)

  abbrev pub sl_touched : Side → F → Bar F → Bool
  sl_touched long level b = le b.low level
  sl_touched short level b = le level b.high

  abbrev pub tp_touched : Side → F → Bar F → Bool
  tp_touched long level b = le level b.high
  tp_touched short level b = le b.low level

  abbrev pub gain : Side → F → F → F
  gain long entry last = (last ⊖ entry) ⊘ entry
  gain short entry last = (entry ⊖ last) ⊘ entry

  -- `future_bars["close"].iloc[-1] if len(future_bars) > 0 else entry`
  abbrev pub final_close : F → List (Bar F) → F
  final_close entry [] = entry
  final_close entry (b ∷ bs) = final_close b.close bs

  -- The loop of `simulate_trade` of backtest_6_walkforward.py, at the bar of the index `i`.
  unfoldable pub simulate_from : F → F → Side → F → F → ℕ → List (Bar F) → Option (SimulatedTrade F)
  simulate_from sl_pct tp_pct side sl tp i [] = none
  simulate_from sl_pct tp_pct side sl tp i (b ∷ bs) =
      let later = simulate_from sl_pct tp_pct side sl tp (i + 1) bs in
      if sl_touched side sl b
      then some (record { outcome = hit_sl; pnl_pct = negated sl_pct; bars = i + 1 })
      else if tp_touched side tp b
      then some (record { outcome = hit_tp; pnl_pct = tp_pct; bars = i + 1 })
      else later

  unfoldable pub simulate_trade : F → F → List (Bar F) → Side → F → SimulatedTrade F
  simulate_trade sl_pct tp_pct future_bars side entry =
      elim (simulate_from sl_pct tp_pct side (sl_price side entry sl_pct)
        (tp_price side entry tp_pct) 0 future_bars) [
          | some trade ↦ trade
          | none ↦ record {
            outcome = timeout;
            pnl_pct = gain side entry (final_close entry future_bars);
            bars = length future_bars;
          }
        ]

  -- `direction` of `run_backtest` of backtest_5_sltp.py
  unfoldable pub direction : Bar F → Option Side
  direction b = if b.long_signal then some long else if b.short_signal then some short else none

  -- Its inner loop, over the bars after the entry.
  unfoldable pub result_pnl : F → F → Side → F → F → List (Bar F) → Option F
  result_pnl sl tp side sl_level tp_level [] = none
  result_pnl sl tp side sl_level tp_level (b ∷ bs) =
      let later = result_pnl sl tp side sl_level tp_level bs in
      if sl_touched side sl_level b
      then some (negated sl)
      else if tp_touched side tp_level b
      then some tp
      else later

  abbrev pub pnl_or : Option F → F → F
  pnl_or none x = x
  pnl_or (some pnl) x = pnl

  -- The profit of the entry at a bar, where `bs` are the bars after it.
  unfoldable pub entry_pnl : F → F → Side → Bar F → List (Bar F) → F
  entry_pnl sl tp side b bs =
      pnl_or (result_pnl sl tp side (sl_price side b.close sl) (tp_price side b.close tp) bs)
        (gain side b.close (final_close b.close bs))

  -- `run_backtest`: the last bar is no entry.
  unfoldable pub run_backtest : F → F → List (Bar F) → List F
  run_backtest sl tp [] = []
  run_backtest sl tp (b ∷ []) = []
  run_backtest sl tp (b ∷ c ∷ cs) =
      let rest = run_backtest sl tp (c ∷ cs) in
      elim (direction b) [ none ↦ rest | some side ↦ entry_pnl sl tp side b (c ∷ cs) ∷ rest ]

  -- `compute_metrics` of backtest_5_sltp.py without the Sharpe ratio.
  abbrev pub leveraged : F → F → F
  leveraged leverage p = let lp = p ⊗ leverage in if le lp (negated one) then negated one else lp

  abbrev pub leverage_all : F → List F → List F
  leverage_all leverage [] = []
  leverage_all leverage (p ∷ ps) = leveraged leverage p ∷ leverage_all leverage ps

  abbrev pub wins : List F → ℕ
  wins [] = 0
  wins (p ∷ ps) = if lt nought p then wins ps + 1 else wins ps

  abbrev pub max_dd_from : F → F → F → List F → F
  max_dd_from equity peak max_dd [] = max_dd
  max_dd_from equity peak max_dd (p ∷ ps) =
      let now = equity ⊗ (one ⊕ p) in
      let high = if lt peak now then now else peak in
      let dd = (high ⊖ now) ⊘ high in max_dd_from now high (if lt max_dd dd then dd else max_dd) ps

  -- The fields `win_rate`, `avg_pnl`, `max_dd` and `n_trades`.
  unfoldable pub compute_metrics : F → List F → F × F × F × ℕ
  compute_metrics leverage [] = (nought, nought, nought, 0)
  compute_metrics leverage (p ∷ ps) =
      let lev_pnls = leverage_all leverage (p ∷ ps) in
      let n = of_int (pos (length lev_pnls)) in
      (
        of_int (pos (wins lev_pnls)) ⊘ n,
        sum_from nought lev_pnls ⊘ n,
        negated (max_dd_from one one nought lev_pnls),
        length lev_pnls,
      )

  -- What the simulation of the other script makes of the same entries.
  unfoldable pub simulated_pnls : F → F → List (Bar F) → List F
  simulated_pnls sl tp [] = []
  simulated_pnls sl tp (b ∷ []) = []
  simulated_pnls sl tp (b ∷ c ∷ cs) =
      let rest = simulated_pnls sl tp (c ∷ cs) in
      elim (direction b) [
        | none ↦ rest
        | some side ↦ (simulate_trade sl tp (c ∷ cs) side b.close).pnl_pct ∷ rest
      ]

  same_exit :
      (sl tp : F) (side : Side) (sl_level tp_level : F) (i : ℕ) (bs : List (Bar F)) (x : F)
      → pnl_or (result_pnl sl tp side sl_level tp_level bs) x
        ≡ elim (simulate_from sl tp side sl_level tp_level i bs) as (λ _. F) [
          | none ↦ x
          | some trade ↦ trade.pnl_pct
        ]
  unfolding result_pnl simulate_from
  same_exit sl tp side sl_level tp_level i [] x = refl
  same_exit sl tp side sl_level tp_level i (b ∷ bs) x =
      ground (arith, same_exit sl tp side sl_level tp_level (i + 1) bs x)

  entry_pnl-simulate_trade :
      (sl tp : F) (side : Side) (b : Bar F) (bs : List (Bar F))
      → entry_pnl sl tp side b bs ≡ (simulate_trade sl tp bs side b.close).pnl_pct
  unfolding entry_pnl simulate_trade
  entry_pnl-simulate_trade sl tp side b bs = ground (
    arith,
    same_exit sl tp side (sl_price side b.close sl) (tp_price side b.close tp) 0 bs
        (gain side b.close (final_close b.close bs)),
  )

  -- The two scripts agree on every trade: on any bars, the profits that `run_backtest` collects are
  -- those of `simulate_trade`, called for each signal but one at the last bar with its closing price
  -- and the bars after it.
  pub run_backtest-simulate_trade :
      (sl tp : F) (bars : List (Bar F)) → run_backtest sl tp bars ≡ simulated_pnls sl tp bars
  unfolding run_backtest simulated_pnls
  run_backtest-simulate_trade sl tp [] = refl
  run_backtest-simulate_trade sl tp (b ∷ []) = refl
  run_backtest-simulate_trade sl tp (b ∷ c ∷ cs) = elim (Option-cases (direction b)) [
    | inl h ↦ rw (h, run_backtest-simulate_trade sl tp (c ∷ cs), run_backtest, simulated_pnls) refl
    | inr (side, h) ↦
        rw
          (
            h,
            run_backtest-simulate_trade sl tp (c ∷ cs),
            run_backtest,
            simulated_pnls,
            entry_pnl-simulate_trade,
          )
          refl
  ]
