-- ===== src/Tests/Learning.antt =====
-- The sentiment agent, the prompts, the reward and the policy on sample inputs.
use aicrypto_trader.Base.{String, ◌≡◌, refl, some, none, List, [], ◌∷◌, true, false, arith}
use aicrypto_trader.Float.{literal, nought, le}
use aicrypto_trader.Float.Fixed.{Fixed, fixed_float, Fixed-IsExact}
use aicrypto_trader.Bus.Messages.{long, PositionUpdate, CloseReason}
use aicrypto_trader.Agents.Messages.{AnalyzeRequest, SizeAdjustment}
use aicrypto_trader.Agents.Director.{adjust_size}
use aicrypto_trader.Agents.Ml.{MlOutside, handle_ml}
use aicrypto_trader.Agents.Rewards.{RewardOutside, new_rewards, on_updates}
use aicrypto_trader.Agents.Rewards.Untaught.{unregistered_never_scales}
use aicrypto_trader.Ml.Reward.{compute_reward, default_reward_config}
use aicrypto_trader.Ml.Reward.Bounds.{compute_reward-bounds}
use aicrypto_trader.Ml.Policy.{Experience, Policy, new_policy}
use aicrypto_trader.Ml.Policy.Replay.{episode, new_replay, replayed, buffer_copy, episode-replayed}
use aicrypto_trader.Tests.Samples.{cfg, fixed}

abbrev ask_for : String → AnalyzeRequest
ask_for s = record { correlation_id = "c1"; symbol = s; interval = "1m"; lookback_bars = 100 }

compute_reward-bounds_example :
    (x : Fixed) × (compute_reward
        (fixed 900)
        (fixed 1)
        (literal 4 2)
        (literal 2 2)
        (fixed 0)
        (fixed 60)
        none
      ≡ x)
    × (le (fixed_float.neg (fixed 5)) x ≡ true)
    × (le x (fixed 5) ≡ true)
compute_reward-bounds_example =
    compute_reward-bounds Fixed-IsExact (fixed 900) (fixed 1) (literal 4 2) (literal 2 2) (fixed 0)
      (fixed 60) none refl

abbrev closing : PositionUpdate Fixed
closing = record {
  symbol = "BTCUSDT";
  side = long;
  qty = literal 5 1;
  entry_price = fixed 100;
  mark_price = fixed 110;
  unrealized_pnl = nought;
  isolated_margin = nought;
  liq_price = literal 804 1;
  is_closed = true;
  close_reason = some CloseReason.tp;
}

abbrev services : RewardOutside Fixed
services = record {
  build = λ s. some [];
  stores = λ r. true;
  trainer = record { builds = λ xs. true; learns = λ xs. true };
}

abbrev models : MlOutside Fixed
models = record {
  fetch_klines = λ s n. some [];
  build = λ s. some [];
  kronos = λ ks. none;
  choose = λ xs. some SizeAdjustment.scale_up;
}

abbrev closings : List (RewardOutside Fixed × Fixed × String × PositionUpdate Fixed)
closings = (services, fixed 10, "u1", closing) ∷ (services, fixed 20, "u2", closing) ∷ []

unregistered_never_scales_example :
    adjust_size cfg
      (handle_ml models
        (on_updates closings (new_rewards default_reward_config (new_policy 1 5))).ppo
        (ask_for "BTCUSDT")).0
      (literal 5 2)
    ≡ literal 5 2
unregistered_never_scales_example =
    unregistered_never_scales closings default_reward_config 1 5 models (ask_for "BTCUSDT") cfg
      (literal 5 2)

abbrev experience : SizeAdjustment → Fixed → Experience Fixed
experience a r = record {
  state = fixed 1 ∷ [];
  action = a;
  reward = r;
  next_state = fixed 2 ∷ [];
  done = false;
}

abbrev trainable : Policy Fixed
trainable = record {
  min_train = 2;
  max_buffer_size = 5;
  has_model = false;
  is_trained = false;
  experience_count = 2;
  buffer =
      experience SizeAdjustment.scale_up (fixed 3)
      ∷ experience SizeAdjustment.scale_down (fixed 4)
      ∷ [];
}

episode-replayed_example :
    episode (λ s. SizeAdjustment.hold) (new_replay trainable)
    ≡ some (replayed (buffer_copy trainable))
episode-replayed_example = episode-replayed (λ s. SizeAdjustment.hold) trainable (omega arith)
