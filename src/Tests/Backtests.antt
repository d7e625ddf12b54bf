-- ===== src/Tests/Backtests.antt =====
-- The backtests on sample bars.
use aicrypto_trader.Base.{◌≡◌, refl, [], ◌∷◌, All, length, arith, ltb, if◌then◌else◌}
use aicrypto_trader.Int.{pos, negsuc}
use aicrypto_trader.Float.Fixed.{Fixed, fixed_float}
use aicrypto_trader.Backtest.Votes.{
  QuantBar, sig_rsi, sig_macd, sig_ema, sig_bb, sig_adx, vote_sum, sig_combined,
}
use aicrypto_trader.Backtest.Accuracy.{evaluate, indices, IsTallied, evaluate-IsTallied}
use aicrypto_trader.Backtest.Agreement.{
  ScoredBar, bar_score, score_of, momentum, confirmation, analyse_agreement, counts,
}
use aicrypto_trader.Backtest.Agreement.Rows.{agreed_score, analyse_agreement-counts}
use aicrypto_trader.Tests.Samples.{fixed}

-- A bar that is oversold in a falling market.
abbrev falling : QuantBar Fixed
falling = record {
  close = fixed 90;
  rsi = fixed 20;
  macd_hist = negsuc 0;
  ema20 = fixed 95;
  ema50 = fixed 99;
  bb_upper = fixed 110;
  bb_lower = fixed 91;
  adx = fixed 30;
}

falling_is_short : sig_combined falling ≡ negsuc 0
unfolding sig_combined vote_sum sig_rsi sig_macd sig_ema sig_bb sig_adx
falling_is_short = refl

evaluate-IsTallied_example :
    IsTallied (λ i. fixed i) (λ i. if ltb i 200 then fixed i else fixed 0) (λ i. pos 1) 200 60 1
    × ((evaluate (λ i. fixed i) (λ i. sig_combined falling) 200 60 1).total
        ≡ length (indices 200 60 1))
evaluate-IsTallied_example =
    evaluate-IsTallied (λ i. fixed i) (λ i. if ltb i 200 then fixed i else fixed 0) (λ i. falling)
      (λ i. pos 1) 200 60 1 (omega arith) (λ i h. ground arith)

abbrev rising : ScoredBar Fixed
rising = record {
  close = fixed 105;
  volume = fixed 9;
  rsi = fixed 60;
  macd_hist = fixed 1;
  ema20 = fixed 102;
  ema50 = fixed 100;
  mid = fixed 101;
  vol_avg = fixed 8;
  ret_future = fixed 1;
}

rising_scores_five : bar_score rising ≡ pos 5
unfolding bar_score score_of momentum confirmation
rising_scores_five = refl

analyse_agreement-counts_example :
    (counts (analyse_agreement (rising ∷ [])) ≡ length (rising ∷ []))
    × All (λ b. bar_score b ≡ agreed_score b) (rising ∷ [])
analyse_agreement-counts_example = analyse_agreement-counts (rising ∷ [])
