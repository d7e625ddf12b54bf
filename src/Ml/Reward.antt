-- ===== src/Ml/Reward.antt =====
-- backend/src/cryptoswarm/ml/reward.py: the composite reward of a closed trade.
pub mod Bounds
use aicrypto_trader.Base.{Option, none, some, if◌then◌else◌}
use aicrypto_trader.Float.{Float, ◌⊕◌, ◌⊖◌, ◌⊗◌, ◌⊘◌, lt, eq, fmin, fmax, nought, literal}

pub record RewardConfig (F : Type 0) : Type 0 where
  pub w1 : F
  pub w2 : F
  pub w3 : F
  pub w4 : F
  pub w5 : F
  pub drawdown_scale : F

module _ {F : Type 0} ⦃fl : Float F⦄ where
  abbrev pub default_reward_config : RewardConfig F
  default_reward_config = record {
    w1 = literal 40 2;
    w2 = literal 20 2;
    w3 = literal 20 2;
    w4 = literal 15 2;
    w5 = literal 5 2;
    drawdown_scale = literal 3 0;
  }

  -- Component 2: whether the trade won.
  unfoldable pub win_contribution : F → F
  win_contribution realized_pnl =
      if lt nought realized_pnl
      then literal 1 0
      else if eq realized_pnl nought
      then nought
      else fl.neg (literal 5 1)

  -- The weighted sum of the five components.
  unfoldable pub weigh : F → F → F → F → F → F → RewardConfig F → F
  weigh realized_pnl position_size_usd tp_pct sl_pct seconds_in_loss total_seconds c =
      let one = literal 1 0 in
      let ps = fmax position_size_usd one in
      let ts = fmax total_seconds one in
      let norm_pnl = fmax (fl.neg one) (fmin one (realized_pnl ⊘ ps)) in
      let rr = fl.abs tp_pct ⊘ fmax (fl.abs sl_pct) (literal 1 6) in
      let rr_contribution = fmin (rr ⊘ literal 5 0) one in
      let drawdown = fmax nought (fl.neg realized_pnl ⊘ ps) in
      let time_in_loss = fmin (seconds_in_loss ⊘ ts) one in
      (c.w1 ⊗ norm_pnl ⊕ c.w2 ⊗ win_contribution realized_pnl ⊕ c.w3 ⊗ rr_contribution)
      ⊖ c.w4 ⊗ (drawdown ⊗ c.drawdown_scale)
      ⊖ c.w5 ⊗ time_in_loss

  -- `max(-5.0, min(5.0, reward))`
  unfoldable pub clamp : F → F
  clamp reward = fmax (fl.neg (literal 5 0)) (fmin (literal 5 0) reward)

  abbrev pub config_or : Option (RewardConfig F) → RewardConfig F
  config_or none = default_reward_config
  config_or (some c) = c

  unfoldable pub compute_reward : F → F → F → F → F → F → Option (RewardConfig F) → F
  compute_reward realized_pnl position_size_usd tp_pct sl_pct seconds_in_loss total_seconds cfg =
      fl.round
        (clamp (
          weigh realized_pnl position_size_usd tp_pct sl_pct seconds_in_loss total_seconds
            (config_or cfg)))
        6
