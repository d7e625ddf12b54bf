-- ===== src/Agents/Rewards/Untaught.antt =====
-- What the policy learns from closures of positions whose opening was not registered.
use aicrypto_trader.Base.{ℕ, String, ◌≡◌, refl, List, [], ◌∷◌, arith, Option-cases, inl, inr}
use aicrypto_trader.Dict.{get, pop}
use aicrypto_trader.Float.{Float}
use aicrypto_trader.Config.{Settings}
use aicrypto_trader.Bus.Messages.{PositionUpdate}
use aicrypto_trader.Agents.Messages.{AnalyzeRequest, SizeAdjustment}
use aicrypto_trader.Agents.Director.{adjust_size}
use aicrypto_trader.Agents.Ml.{MlOutside, handle_ml, ml_inputs, infer, ml_signal, neutral_signal}
use aicrypto_trader.Agents.Rewards.{
  RewardComputer, RewardOutside, new_rewards, on_update, on_updates, handle_close, teach,
}
use aicrypto_trader.Ml.Reward.{RewardConfig}
use aicrypto_trader.Ml.Policy.{Policy, new_policy, predict}

module _ {F : Type 0} ⦃fl : Float F⦄ where
  abbrev IsUntaught : RewardComputer F → Policy F → Type 0
  IsUntaught c p = (c.entry_info ≡ []) × (c.ppo ≡ p)

  on_update-IsUntaught :
      (out : RewardOutside F) (now : F) (cid : String) (u : PositionUpdate F) (c : RewardComputer F)
      (p : Policy F)
      → IsUntaught c p
      → IsUntaught (on_update out now cid u c) p
  unfolding on_update handle_close teach get pop
  on_update-IsUntaught out now cid u c p (none_known, same) = ground arith

  on_updates-IsUntaught :
      (us : List (RewardOutside F × F × String × PositionUpdate F)) (c : RewardComputer F)
      (p : Policy F)
      → IsUntaught c p
      → IsUntaught (on_updates us c) p
  unfolding on_updates
  on_updates-IsUntaught [] c p h = h
  on_updates-IsUntaught ((out, now, cid, u) ∷ us) c p h =
      on_updates-IsUntaught us (on_update out now cid u c) p
        (on_update-IsUntaught out now cid u c p h)

  handle_ml-hold :
      (out : MlOutside F) (req : AnalyzeRequest) (m n : ℕ)
      → (handle_ml out (new_policy m n) req).0.size_adjustment ≡ SizeAdjustment.hold
  unfolding handle_ml infer predict ml_signal neutral_signal
  handle_ml-hold out req m n = elim (Option-cases (ml_inputs out req)) [
    | inl failed ↦ rw (failed, handle_ml) refl
    | inr ((klines, features), h) ↦
        rw (h, handle_ml)
          (elim (Option-cases (out.kronos klines)) [
            | inl failed ↦ rw (failed, infer) refl
            | inr (f, k) ↦ rw (k, infer) refl
          ])
  ]

  -- As long as no opening is registered with the reward computer, any series of position updates
  -- leaves the policy untrained: whatever the models answer, the ML agent asks to hold the size, and
  -- the director keeps the size that the language model gave.
  pub unregistered_never_scales :
      (us : List (RewardOutside F × F × String × PositionUpdate F)) (weights : RewardConfig F)
      (m n : ℕ) (out : MlOutside F) (req : AnalyzeRequest) (cfg : Settings F) (size_pct : F)
      → let c = on_updates us (new_rewards weights (new_policy m n)) in
        adjust_size cfg (handle_ml out c.ppo req).0 size_pct ≡ size_pct
  unfolding adjust_size
  unregistered_never_scales us weights m n out req cfg size_pct =
      let (_, same) =
        on_updates-IsUntaught us (new_rewards weights (new_policy m n)) (new_policy m n)
          (refl, refl) in
      rw (same, handle_ml-hold out req m n, adjust_size) refl
