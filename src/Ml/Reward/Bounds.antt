-- ===== src/Ml/Reward/Bounds.antt =====
-- The range of the reward.
use aicrypto_trader.Base.{◌≡◌, refl, Option, true, arith}
use aicrypto_trader.Float.{Float, IsExact, le, literal}
use aicrypto_trader.Ml.Reward.{RewardConfig, weigh, clamp, config_or, compute_reward}

module _ {F : Type 0} ⦃fl : Float F⦄ where
  clamp-bounds :
      (ex : IsExact F) (x : F)
      → le (fl.neg (literal 5 0)) (literal 5 0) ≡ true
      → (le (fl.neg (literal 5 0)) (clamp x) ≡ true) × (le (clamp x) (literal 5 0) ≡ true)
  unfolding clamp
  clamp-bounds ex x h =
      let five = literal 5 0 in
      let low = fl.neg five in
      ground (
        arith,
        ex.le_iff low five,
        ex.le_iff low low,
        ex.le_iff five five,
        ex.le_iff low x,
        ex.le_iff x five,
        ex.lt_iff x five,
        ex.lt_iff low x,
        ex.lt_iff low five,
      )

  -- On exact amounts, where -5 is not above 5: whatever the trade and the weights, the reward is a
  -- number between -5 and 5, rounded to six digits.
  pub compute_reward-bounds :
      (ex : IsExact F) (realized_pnl position_size_usd tp_pct sl_pct seconds_in_loss total : F)
      (cfg : Option (RewardConfig F))
      → le (fl.neg (literal 5 0)) (literal 5 0) ≡ true
      → (x : F) × (compute_reward realized_pnl position_size_usd tp_pct sl_pct seconds_in_loss total
            cfg
          ≡ fl.round x 6)
        × (le (fl.neg (literal 5 0)) x ≡ true)
        × (le x (literal 5 0) ≡ true)
  unfolding compute_reward
  compute_reward-bounds ex pnl size tp sl loss total cfg h =
      let x = weigh pnl size tp sl loss total (config_or cfg) in
      let (above, below) = clamp-bounds ex x h in (clamp x, refl, above, below)
