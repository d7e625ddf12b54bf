-- ===== src/Agents/Director.antt =====
-- backend/src/cryptoswarm/agents/director.py: the director agent.
-- `ask` stands for the language model's answer to the system prompt and the five results; `none` is
-- any exception of the call, of the conversions of its answer, or of their validation, all of which
-- come before anything is written but the prompt and the cycle count. `load` stands for
-- `PromptStore.get`. The clock is read once for each analysis. The decision is always stored.
pub mod Collect
pub mod Cooldown
pub mod Decisions
pub mod Answers
use aicrypto_trader.Base.{
  ℕ, ◌+◌, String, Option, none, some, Bool, true, false, not, ◌&&◌, List, [], ◌∷◌, leb, ◌==◌,
  if◌then◌else◌,
}
use Prim.Native.Nat.{◌%◌}
use aicrypto_trader.Int.{pos}
use aicrypto_trader.Dict.{Dict, get, put}
use aicrypto_trader.Float.{Float, ◌⊕◌, ◌⊖◌, ◌⊗◌, lt, fmin, nought, literal}
use aicrypto_trader.Config.{Settings}
use aicrypto_trader.Bus.Messages.{Side, long, short, Signal}
use aicrypto_trader.Agents.Messages.{
  AnalyzeRequest, QuantResult, RiskResult, SentimentResult, PortfolioResult, MlSignal,
  SizeAdjustment, scale_up, scale_down, Action, PortfolioReason, DecisionReason, blocked,
  synthesized, DirectorDecision,
}

-- The five results that one analysis needs.
pub record Results (F : Type 0) : Type 0 where
  pub quant : QuantResult F
  pub risk : RiskResult F
  pub sentiment : SentimentResult F
  pub portfolio : PortfolioResult F
  pub ml : MlSignal F

-- The model's answer.
pub record RawDecision (F : Type 0) : Type 0 where
  pub action : Action
  pub side : Side
  pub confidence : F
  pub size_pct : F
  pub sl_pct : F
  pub tp_pct : F
  pub reasoning : DecisionReason

-- What an analysis reads and writes: the prompt, the times of the last signals, and what it stored
-- and published, the latest first. Each signal is kept with its time.
pub record Director (F : Type 0) : Type 0 where
  pub cycle_count : ℕ
  pub current_prompt : String
  pub last_signal_ts : Dict F
  pub decisions : List (DirectorDecision F)
  pub signals : List (Signal F × F)

-- What lies outside: whether there is a prompt store and what it answers, and the model.
pub record Outside (F : Type 0) : Type 0 where
  pub load : Option (ℕ → String)
  pub ask : String → String → Results F → Option (RawDecision F)

-- A blocked decision holds, so its text never reaches a signal.
abbrev reason_text : DecisionReason → String
reason_text (blocked r) = "Portfolio agent blocked: "
reason_text (synthesized t) = t

abbrev pub is_hold : Action → Bool
is_hold Action.hold = true
is_hold _ = false

module _ {F : Type 0} where
  -- The prompt is read again every ten cycles.
  unfoldable pub reload_prompt : Outside F → Director F → Director F
  reload_prompt out d = record d {
    current_prompt = elim out.load [
      | none ↦ d.current_prompt
      | some read ↦ if d.cycle_count % 10 == 0 then read d.cycle_count else d.current_prompt
    ];
    cycle_count = d.cycle_count + 1;
  }

module _ {F : Type 0} ⦃fl : Float F⦄ where
  abbrev pub refusal : PortfolioReason → RawDecision F
  refusal r = record {
    action = Action.hold;
    side = long;
    confidence = nought;
    size_pct = nought;
    sl_pct = literal 2 2;
    tp_pct = literal 4 2;
    reasoning = blocked r;
  }

  -- The raw decision: a refusal of the portfolio agent is final and does not ask the model.
  unfoldable pub raw_decision : Outside F → String → String → Results F → Option (RawDecision F)
  raw_decision out prompt symbol r =
      if not r.portfolio.approved
      then some (refusal r.portfolio.reasoning)
      else out.ask prompt symbol r

  unfoldable pub adjust_size : Settings F → MlSignal F → F → F
  adjust_size cfg ml size_pct = elim (ml.size_adjustment) [
    | SizeAdjustment.scale_up ↦
        if lt (literal 6 1) ml.confidence
        then fmin (size_pct ⊗ literal 12 1) cfg.risk.max_position_pct
        else size_pct
    | SizeAdjustment.scale_down ↦ size_pct ⊗ literal 8 1
    | SizeAdjustment.hold ↦ size_pct
  ]

  abbrev pub value_or : Option F → F → F
  value_or none x = x
  value_or (some v) x = v

  abbrev pub close_of : QuantResult F → F
  close_of q = value_or (get q.indicators "close") nought

  unfoldable pub decide :
      Settings F → AnalyzeRequest → Results F → RawDecision F → DirectorDecision F
  decide cfg req r raw = record {
    correlation_id = req.correlation_id;
    symbol = req.symbol;
    action = raw.action;
    side = raw.side;
    confidence = raw.confidence;
    size_pct = adjust_size cfg r.ml raw.size_pct;
    sl_pct = raw.sl_pct;
    tp_pct = raw.tp_pct;
    entry_price = close_of r.quant;
    reasoning = raw.reasoning;
  }

  abbrev one : F
  one = literal 1 0

  abbrev sl_of : Side → F → F → F
  sl_of long entry pct = entry ⊗ (one ⊖ pct)
  sl_of short entry pct = entry ⊗ (one ⊕ pct)

  abbrev tp_of : Side → F → F → F
  tp_of long entry pct = entry ⊗ (one ⊕ pct)
  tp_of short entry pct = entry ⊗ (one ⊖ pct)

  unfoldable pub signal_of : Settings F → DirectorDecision F → Signal F
  signal_of cfg d = record {
    correlation_id = d.correlation_id;
    symbol = d.symbol;
    side = d.side;
    size_usd =
        fl.round (cfg.risk.starting_balance_usd ⊗ fmin d.size_pct cfg.risk.max_position_pct) 2;
    sl = fl.round (sl_of d.side d.entry_price d.sl_pct) 4;
    tp = fl.round (tp_of d.side d.entry_price d.tp_pct) 4;
    leverage = pos cfg.risk.max_leverage;
    reasoning = reason_text d.reasoning;
  }

  abbrev pub signal_cooldown_s : F
  signal_cooldown_s = literal 300 0

  -- The end of an analysis: a decision to act is published unless the symbol cools down.
  unfoldable pub act : Settings F → F → DirectorDecision F → Director F → Director F
  act cfg now decision d =
      let last_ts = value_or (get d.last_signal_ts decision.symbol) nought in
      if is_hold decision.action
      then d
      else if lt (now ⊖ last_ts) signal_cooldown_s
      then d
      else record d {
        last_signal_ts = put d.last_signal_ts decision.symbol now;
        signals = (signal_of cfg decision, now) ∷ d.signals;
      }

  abbrev pub store : DirectorDecision F → Director F → Director F
  store decision d = record d { decisions = decision ∷ d.decisions }

  -- `_analyze_symbol_with_results`
  unfoldable pub analyze_with_results :
      Settings F → Outside F → F → AnalyzeRequest → Results F → Director F → Director F
  analyze_with_results cfg out now req r d =
      let ready = reload_prompt out d in
      elim (raw_decision out ready.current_prompt req.symbol r) [
        | none ↦ ready
        | some raw ↦
            let decision = decide cfg req r raw in act cfg now decision (store decision ready)
      ]
