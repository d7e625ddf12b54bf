-- ===== src/Database/Records.antt =====
-- The tables that are only written and listed: `decisions` of backend/src/cryptoswarm/storage/decisions.py,
-- `ml_signals`, `training_runs` and `news_sentiment` of storage/postgres.py, and their lists in
-- api/routes/dashboard.py. A row stands with its time stamp, in milliseconds; the metrics of a
-- training run are the text that `json.dumps` makes of them.
pub mod Listed
use aicrypto_trader.Base.{
  ℕ, suc, ◌+◌, ◌*◌, ◌<◌, String, ◌≡◌, refl, ap, ◌∙◌, Option, none, some, Bool, ◌&&◌, List, [], ◌∷◌,
  ◌++◌, All, arith, ltb, leb, str_eq, ◌==◌, take, if◌then◌else◌,
}
use aicrypto_trader.Agents.Messages.{
  DirectorDecision, QuantResult, RiskResult, SentimentResult, PortfolioResult, Action,
  DecisionReason,
}
use aicrypto_trader.Agents.Director.{Results}
use aicrypto_trader.Agents.Ml.{MlRow}
use aicrypto_trader.Bus.Messages.{Side}
use aicrypto_trader.Scraper.{NewsSentiment}

module _ {A : Type 0} where
  -- `ORDER BY ts DESC`
  abbrev pub by_ts_desc : ℕ × A → List (ℕ × A) → List (ℕ × A)
  by_ts_desc r [] = r ∷ []
  by_ts_desc r (s ∷ ss) = if ltb r.0 s.0 then s ∷ by_ts_desc r ss else r ∷ s ∷ ss

  unfoldable pub latest_first : List (ℕ × A) → List (ℕ × A)
  latest_first [] = []
  latest_first (r ∷ rs) = by_ts_desc r (latest_first rs)

  -- A table after the insertions of a log, whose latest is first.
  abbrev pub inserted : List (ℕ × A) → List (ℕ × A)
  inserted [] = []
  inserted (r ∷ log) = inserted log ++ (r ∷ [])

  -- Every insertion of the log is later than those before it.
  abbrev pub IsLaterThan : ℕ → List (ℕ × A) → Type 0
  IsLaterThan ts log = All (λ r. r.0 < ts) log

  abbrev pub AreInOrder : List (ℕ × A) → Type 0
  AreInOrder [] = Unit
  AreInOrder (r ∷ log) = IsLaterThan (r.0) log × AreInOrder log

-- The summaries are the results, as `model_dump` writes them.
pub record DecisionRow (F : Type 0) : Type 0 where
  pub correlation_id : String
  pub agent_name : String
  pub symbol : String
  pub quant_summary : QuantResult F
  pub risk_summary : RiskResult F
  pub sentiment_summary : SentimentResult F
  pub portfolio_summary : PortfolioResult F
  pub action : Action
  pub side : Side
  pub size_pct : F
  pub sl_pct : F
  pub tp_pct : F
  pub entry_price : F
  pub reasoning : DecisionReason
  pub confidence : F

pub record TrainingRun : Type 0 where
  pub id : ℕ
  pub model_type : String
  pub started_at : ℕ
  pub completed_at : Option ℕ
  pub sample_count : Option ℕ
  pub metrics : Option String

-- The table of the training runs with the next value of its serial column.
pub record TrainingRuns : Type 0 where
  pub next_id : ℕ
  pub rows : List TrainingRun

module _ {F : Type 0} where
  abbrev pub decision_row : DirectorDecision F → Results F → DecisionRow F
  decision_row d r = record {
    correlation_id = d.correlation_id;
    agent_name = "director";
    symbol = d.symbol;
    quant_summary = r.quant;
    risk_summary = r.risk;
    sentiment_summary = r.sentiment;
    portfolio_summary = r.portfolio;
    action = d.action;
    side = d.side;
    size_pct = d.size_pct;
    sl_pct = d.sl_pct;
    tp_pct = d.tp_pct;
    entry_price = d.entry_price;
    reasoning = d.reasoning;
    confidence = d.confidence;
  }

  -- `DecisionWriter.insert`
  unfoldable pub insert_decision :
      ℕ → DirectorDecision F → Results F → List (ℕ × DecisionRow F) → List (ℕ × DecisionRow F)
  insert_decision ts d r rows = rows ++ ((ts, decision_row d r) ∷ [])

  unfoldable pub insert_ml_signal : ℕ → MlRow F → List (ℕ × MlRow F) → List (ℕ × MlRow F)
  insert_ml_signal ts r rows = rows ++ ((ts, r) ∷ [])

  unfoldable pub list_decisions : ℕ → List (ℕ × DecisionRow F) → List (ℕ × DecisionRow F)
  list_decisions limit rows = take limit (latest_first rows)

  unfoldable pub list_ml_signals : ℕ → List (ℕ × MlRow F) → List (ℕ × MlRow F)
  list_ml_signals limit rows = take limit (latest_first rows)

  -- WHERE symbol = $1 AND ts >= now() - $2 hours
  unfoldable pub recent_rows :
      ℕ → String → ℕ → List (ℕ × NewsSentiment F) → List (ℕ × NewsSentiment F)
  recent_rows now symbol hours [] = []
  recent_rows now symbol hours (r ∷ rs) =
      let rest = recent_rows now symbol hours rs in
      if str_eq (r.1).symbol symbol && leb now (r.0 + hours * 3_600_000) then r ∷ rest else rest

  unfoldable pub get_news_sentiment_for_symbol :
      ℕ → String → ℕ → List (ℕ × NewsSentiment F) → List (ℕ × NewsSentiment F)
  get_news_sentiment_for_symbol now symbol hours rows =
      latest_first (recent_rows now symbol hours rows)

-- `insert_training_run` returns the id of the new row.
unfoldable pub insert_training_run : String → ℕ → TrainingRuns → ℕ × TrainingRuns
insert_training_run model_type started_at t = (
  t.next_id,
  record {
    next_id = suc t.next_id;
    rows =
        t.rows
        ++ (record {
          id = t.next_id;
          model_type = model_type;
          started_at = started_at;
          completed_at = none;
          sample_count = none;
          metrics = none;
        }
            ∷ []);
  },
)

abbrev pub completed_run : ℕ → ℕ → String → TrainingRun → TrainingRun
completed_run completed_at sample_count metrics r = record r {
  completed_at = some completed_at;
  sample_count = some sample_count;
  metrics = some metrics;
}

abbrev pub complete_rows : ℕ → ℕ → ℕ → String → List TrainingRun → List TrainingRun
complete_rows run_id completed_at sample_count metrics [] = []
complete_rows run_id completed_at sample_count metrics (r ∷ rs) =
    (if r.id == run_id then completed_run completed_at sample_count metrics r else r)
    ∷ complete_rows run_id completed_at sample_count metrics rs

unfoldable pub update_training_run : ℕ → ℕ → ℕ → String → TrainingRuns → TrainingRuns
update_training_run run_id completed_at sample_count metrics t = record t {
  rows = complete_rows run_id completed_at sample_count metrics t.rows;
}
