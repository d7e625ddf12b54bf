-- ===== src/Tests/Agents.antt =====
-- The director on sample analyses.
use aicrypto_trader.Base.{◌≡◌, ◌≢◌, refl, some, none, List, [], ◌∷◌, true, ℕ}
use aicrypto_trader.Dict.{get}
use aicrypto_trader.Float.{literal, nought}
use aicrypto_trader.Float.Fixed.{Fixed, fixed_float, Fixed-IsExact}
use aicrypto_trader.Bus.Messages.{long}
use aicrypto_trader.Risk.Guards.{check, allowed}
use aicrypto_trader.Agents.Messages.{
  AnalyzeRequest, Regime, Direction, SizeAdjustment, PortfolioReason, PortfolioResult,
  DecisionReason, DirectorDecision, Action, SentimentSummary, FngSummary, MlReason,
}
use aicrypto_trader.Agents.Director.{
  Results, RawDecision, Director, Outside, signal_of, analyze_with_results,
}
use aicrypto_trader.Agents.Director.Collect.{AgentResult, InboxStep, empty_inbox, completeness}
use aicrypto_trader.Agents.Director.Cooldown.{
  Analysis, analyses, IsSpaced, new_director, analyses-IsSpaced,
}
use aicrypto_trader.Agents.Director.Decisions.{confidence_ignored, recast, priceless_signal_refused}
use aicrypto_trader.Tests.Samples.{cfg, fixed}

abbrev pub request : AnalyzeRequest
request = record { correlation_id = "c1"; symbol = "BTCUSDT"; interval = "1m"; lookback_bars = 100 }

abbrev pub approval : PortfolioResult Fixed
approval = record {
  correlation_id = "c1";
  symbol = "BTCUSDT";
  approved = true;
  correlation_penalty = literal 5 1;
  reasoning = PortfolioReason.assessed "fine";
}

abbrev pub results : Results Fixed
results = record {
  quant = record {
    correlation_id = "c1";
    symbol = "BTCUSDT";
    regime = Regime.trending_up;
    signal_strength = literal 5 1;
    confidence = literal 9 1;
    reasoning = "";
    indicators = ("close", fixed 100) ∷ [];
  };
  risk = record {
    correlation_id = "c1";
    symbol = "BTCUSDT";
    kelly_fraction = literal 5 2;
    max_loss_usdt = fixed 10;
    reasoning = "";
  };
  sentiment = record {
    correlation_id = "c1";
    symbol = "BTCUSDT";
    score = nought;
    source = "combined";
    summary = SentimentSummary.index_alone FngSummary.unavailable;
  };
  portfolio = approval;
  ml = record {
    correlation_id = "c1";
    symbol = "BTCUSDT";
    regime_pred = Regime.trending_up;
    direction_pred = Direction.up;
    short_direction = Direction.up;
    size_adjustment = SizeAdjustment.scale_up;
    confidence = literal 8 1;
    reasoning = MlReason.features_failed;
  };
}

-- A model that always buys.
abbrev bull : RawDecision Fixed
bull = record {
  action = Action.buy;
  side = long;
  confidence = literal 7 1;
  size_pct = literal 5 2;
  sl_pct = literal 2 2;
  tp_pct = literal 4 2;
  reasoning = DecisionReason.synthesized "up";
}

abbrev pub outside : Outside Fixed
outside = record { load = none; ask = λ p s r. some bull }

abbrev pub start : Director Fixed
start = new_director "prompt"

abbrev at : ℕ → Analysis Fixed
at t = record { now = fixed t; request = request; results = results; outside = outside }

analyses-IsSpaced_example : IsSpaced (analyses cfg (at 1000 ∷ at 1060 ∷ at 1301 ∷ []) start).signals
analyses-IsSpaced_example = analyses-IsSpaced cfg "prompt" (at 1000 ∷ at 1060 ∷ at 1301 ∷ [])

abbrev steps : List (InboxStep Fixed)
steps =
    InboxStep.begins "c1"
    ∷ InboxStep.arrives (some (AgentResult.quant results.quant))
    ∷ InboxStep.arrives (some (AgentResult.risk results.risk))
    ∷ []

nothing_waits : completeness (get {V = _} (empty_inbox {F = Fixed}).pending "c1") ≢ some true
unfolding get
nothing_waits e = cc e

-- With the confidence 0.1 in place of 0.7 the signal is the same.
confidence_ignored_example :
    let doubting : Outside Fixed = record outside {
      ask = λ p s q. recast cfg (literal 1 1) (some bull);
    } in
    let d = analyze_with_results cfg outside (fixed 1000) request results start in
    let d' = analyze_with_results cfg doubting (fixed 1000) request results start in
    (d'.signals ≡ d.signals) × (d'.last_signal_ts ≡ d.last_signal_ts)
confidence_ignored_example =
    confidence_ignored cfg outside (fixed 1000) request results start (literal 1 1)

abbrev priceless : DirectorDecision Fixed
priceless = record {
  correlation_id = "c1";
  symbol = "BTCUSDT";
  action = Action.buy;
  side = long;
  confidence = literal 7 1;
  size_pct = literal 50 2;
  sl_pct = literal 2 2;
  tp_pct = literal 4 2;
  entry_price = nought;
  reasoning = DecisionReason.synthesized "up";
}

priceless_signal_refused_example : check cfg 0 (fixed 1000) (signal_of cfg priceless) ≢ allowed
priceless_signal_refused_example =
    priceless_signal_refused cfg Fixed-IsExact priceless 0 (fixed 1000) refl refl
