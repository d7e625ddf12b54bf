-- ===== src/Agents/Messages.antt =====
-- The messages between the agents, from backend/src/cryptoswarm/bus/messages.py.
-- Texts that only go into prompts, logs and database rows are left out where nothing reads them.
use aicrypto_trader.Base.{ℕ, String, Bool}
use aicrypto_trader.Int.{ℤ}
use aicrypto_trader.Dict.{Dict}
use aicrypto_trader.Bus.Messages.{Side}

pub record AnalyzeRequest : Type 0 where
  pub correlation_id : String
  pub symbol : String
  pub interval : String
  pub lookback_bars : ℕ

pub data Regime : Type 0 where
  trending_up trending_down ranging volatile : Regime

-- `indicators` holds the numeric entries of the dictionary.
pub record QuantResult (F : Type 0) : Type 0 where
  pub correlation_id : String
  pub symbol : String
  pub regime : Regime
  pub signal_strength : F
  pub confidence : F
  pub reasoning : String
  pub indicators : Dict F

pub record RiskResult (F : Type 0) : Type 0 where
  pub correlation_id : String
  pub symbol : String
  pub kelly_fraction : F
  pub max_loss_usdt : F
  pub reasoning : String

-- The classification and value of the fear and greed index, or that there is none.
pub data FngSummary : Type 0 where
  classified : String → ℤ → FngSummary
  unavailable : FngSummary

-- The summary of the sentiment agent: the index alone, or with the number and score of the news.
pub data SentimentSummary (F : Type 0) : Type 0 where
  index_alone : FngSummary → SentimentSummary F
  with_news : FngSummary → ℕ → F → SentimentSummary F

pub record SentimentResult (F : Type 0) : Type 0 where
  pub correlation_id : String
  pub symbol : String
  pub score : F
  pub source : String
  pub summary : SentimentSummary F

-- The reasoning of the portfolio agent: the hard cap with its two numbers, or the model's text.
pub data PortfolioReason : Type 0 where
  hard_cap : ℕ → ℕ → PortfolioReason
  assessed : String → PortfolioReason

pub record PortfolioResult (F : Type 0) : Type 0 where
  pub correlation_id : String
  pub symbol : String
  pub approved : Bool
  pub correlation_penalty : F
  pub reasoning : PortfolioReason

pub data Direction : Type 0 where
  up down : Direction

pub data SizeAdjustment : Type 0 where
  hold scale_up scale_down : SizeAdjustment

-- The reasoning of the ML agent: the forecast with the size adjustment, or why there is none.
pub data MlReason (F : Type 0) : Type 0 where
  forecast : Regime → Direction → Direction → F → SizeAdjustment → MlReason F
  features_failed inference_failed : MlReason F

pub record MlSignal (F : Type 0) : Type 0 where
  pub correlation_id : String
  pub symbol : String
  pub regime_pred : Regime
  pub direction_pred : Direction
  pub short_direction : Direction
  pub size_adjustment : SizeAdjustment
  pub confidence : F
  pub reasoning : MlReason F

pub data Action : Type 0 where
  buy sell hold : Action

-- The reasoning of a decision: the portfolio agent's refusal, or the model's text.
pub data DecisionReason : Type 0 where
  blocked : PortfolioReason → DecisionReason
  synthesized : String → DecisionReason

pub record DirectorDecision (F : Type 0) : Type 0 where
  pub correlation_id : String
  pub symbol : String
  pub action : Action
  pub side : Side
  pub confidence : F
  pub size_pct : F
  pub sl_pct : F
  pub tp_pct : F
  pub entry_price : F
  pub reasoning : DecisionReason
