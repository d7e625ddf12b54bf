-- ===== src/Agents/Risk.antt =====
-- backend/src/cryptoswarm/agents/risk_agent.py: the risk agent.
-- `ask` stands for the language model's answer to the prompt, which is made of the symbol and the
-- risk settings; `none` is an exception, which `run` logs.
use aicrypto_trader.Base.{String, Option, some, ◌>>=◌}
use aicrypto_trader.Float.{Float, fmin}
use aicrypto_trader.Config.{Settings, RiskConfig}
use aicrypto_trader.Agents.Messages.{AnalyzeRequest, RiskResult}

-- The answer of the model, by its schema.
pub record RiskAnswer (F : Type 0) : Type 0 where
  pub kelly_fraction : F
  pub max_loss_usdt : F
  pub reasoning : String

module _ {F : Type 0} ⦃fl : Float F⦄ where
  -- `_handle`: the result that is published, if any.
  unfoldable pub handle_risk :
      Settings F
      → (String → RiskConfig F → Option (RiskAnswer F))
      → AnalyzeRequest
      → Option (RiskResult F)
  handle_risk cfg ask req = do
    raw ← ask req.symbol cfg.risk
    some (record {
      correlation_id = req.correlation_id;
      symbol = req.symbol;
      kelly_fraction = fmin raw.kelly_fraction cfg.risk.max_position_pct;
      max_loss_usdt = raw.max_loss_usdt;
      reasoning = raw.reasoning;
    })
