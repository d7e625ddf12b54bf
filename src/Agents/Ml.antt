-- ===== src/Agents/Ml.antt =====
-- backend/src/cryptoswarm/agents/ml_agent.py: the ML agent.
-- `fetch_klines`, `build` and `forecast` stand for the database, the features and the Kronos model;
-- `none` is an exception. A failure to store the row changes nothing that was published.
use aicrypto_trader.Base.{ℕ, String, Option, none, some, List, ◌>>=◌}
use aicrypto_trader.Float.{Float, nought}
use aicrypto_trader.Agents.Messages.{
  AnalyzeRequest, Regime, ranging, Direction, up, SizeAdjustment, MlReason, forecast,
  features_failed, inference_failed, MlSignal,
}
use aicrypto_trader.Agents.Quant.{Kline}
use aicrypto_trader.Ml.Policy.{Policy, predict}

pub record Forecast (F : Type 0) : Type 0 where
  pub regime : Regime
  pub direction : Direction
  pub short_direction : Direction
  pub confidence : F

pub record MlOutside (F : Type 0) : Type 0 where
  pub fetch_klines : String → ℕ → Option (List (Kline F))
  pub build : String → Option (List F)
  pub kronos : List (Kline F) → Option (Forecast F)
  pub choose : List F → Option SizeAdjustment

-- The row that is stored with the signal.
pub record MlRow (F : Type 0) : Type 0 where
  pub symbol : String
  pub regime_pred : Regime
  pub direction_pred : Direction
  pub short_direction : Direction
  pub confidence : F
  pub size_adjustment : SizeAdjustment
  pub model_version : String

module _ {F : Type 0} where
  abbrev row_of : String → MlSignal F → MlRow F
  row_of model_version m = record {
    symbol = m.symbol;
    regime_pred = m.regime_pred;
    direction_pred = m.direction_pred;
    short_direction = m.short_direction;
    confidence = m.confidence;
    size_adjustment = m.size_adjustment;
    model_version = model_version;
  }

module _ {F : Type 0} ⦃fl : Float F⦄ where
  unfoldable pub neutral_signal : AnalyzeRequest → MlReason F → MlSignal F
  neutral_signal req reason = record {
    correlation_id = req.correlation_id;
    symbol = req.symbol;
    regime_pred = ranging;
    direction_pred = up;
    short_direction = up;
    size_adjustment = SizeAdjustment.hold;
    confidence = nought;
    reasoning = reason;
  }

  abbrev publish_neutral : AnalyzeRequest → MlReason F → MlSignal F × MlRow F
  publish_neutral req reason = let m = neutral_signal req reason in (m, row_of "neutral_fallback" m)

  unfoldable pub ml_signal : AnalyzeRequest → Forecast F → SizeAdjustment → MlSignal F
  ml_signal req f size_adj = record {
    correlation_id = req.correlation_id;
    symbol = req.symbol;
    regime_pred = f.regime;
    direction_pred = f.direction;
    short_direction = f.short_direction;
    size_adjustment = size_adj;
    confidence = fl.round f.confidence 4;
    reasoning = forecast f.regime f.direction f.short_direction f.confidence size_adj;
  }

  -- The two inputs of the models.
  unfoldable pub ml_inputs : MlOutside F → AnalyzeRequest → Option (List (Kline F) × List F)
  ml_inputs out req = do
    klines ← out.fetch_klines req.symbol 512
    feat_vec ← out.build req.symbol
    some (klines, feat_vec)

  -- The forecast and the size adjustment.
  unfoldable pub infer :
      MlOutside F → Policy F → List (Kline F) × List F → Option (Forecast F × SizeAdjustment)
  infer out p (klines, feat_vec) = do
    f ← out.kronos klines
    chosen ← predict out.choose p feat_vec
    some (f, chosen.0)

  -- `_handle`: the signal that is published and the row that is to be stored.
  unfoldable pub handle_ml : MlOutside F → Policy F → AnalyzeRequest → MlSignal F × MlRow F
  handle_ml out p req = elim (ml_inputs out req) [
    | none ↦ publish_neutral req features_failed
    | some inputs ↦ elim (infer out p inputs) [
      | none ↦ publish_neutral req inference_failed
      | some (f, size_adj) ↦
          (ml_signal req f size_adj, row_of "kronos-base" (ml_signal req f size_adj))
    ]
  ]
