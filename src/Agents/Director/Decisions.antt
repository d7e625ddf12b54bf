-- ===== src/Agents/Director/Decisions.antt =====
-- What one analysis of agents/director.py sends, and what the engine's guard makes of it.
use aicrypto_trader.Base.{
  ℕ, String, ◌≡◌, ◌≢◌, refl, ◌⊎◌, inl, inr, Option, none, some, true, false, ◌∷◌, arith, ap, sym,
  ◌∙◌, if_intro, Option-cases, Bool-cases,
}
use aicrypto_trader.Float.{Float, IsExact, ◌⊗◌, lt, le, fmin, nought}
use aicrypto_trader.Config.{Settings}
use aicrypto_trader.Bus.Messages.{Side, long, short}
use aicrypto_trader.Risk.Guards.{check, allowed}
use aicrypto_trader.Risk.Guards.Accepted.{check-IsWithinLimits}
use aicrypto_trader.Agents.Messages.{AnalyzeRequest, DirectorDecision}
use aicrypto_trader.Agents.Director.{
  Results, RawDecision, Director, Outside, reload_prompt, raw_decision, refusal, decide, signal_of,
  act, sl_of, is_hold, store, analyze_with_results,
}

module _ {F : Type 0} ⦃fl : Float F⦄ (cfg : Settings F) where
  -- If the portfolio agent refuses, the analysis stores a decision to hold and sends no signal,
  -- whatever the model would answer, and the cooldown of the symbol does not start.
  pub refused_sends_nothing :
      (out : Outside F) (now : F) (req : AnalyzeRequest) (r : Results F) (d : Director F)
      → r.portfolio.approved ≡ false
      → let d' = analyze_with_results cfg out now req r d in
        (d'.decisions ≡ decide cfg req r (refusal r.portfolio.reasoning) ∷ d.decisions)
        × (d'.signals ≡ d.signals)
        × (d'.last_signal_ts ≡ d.last_signal_ts)
  unfolding analyze_with_results raw_decision act decide reload_prompt
  refused_sends_nothing out now req r d h = rw h (refl, refl, refl)

  -- The model's answers with another confidence.
  abbrev pub recast : F → Option (RawDecision F) → Option (RawDecision F)
  recast c none = none
  recast c (some raw) = some (record raw { confidence = c })

  act-signals :
      (now : F) (x y : DirectorDecision F) (d : Director F)
      → is_hold x.action ≡ is_hold y.action
      → x.symbol ≡ y.symbol
      → signal_of cfg x ≡ signal_of cfg y
      → let d' = act cfg now x (store x d) in
        let d'' = act cfg now y (store y d) in
        (d''.signals ≡ d'.signals) × (d''.last_signal_ts ≡ d'.last_signal_ts)
  unfolding act
  act-signals now x y d hold symbol same = ground arith

  analyze_made :
      (out : Outside F) (now : F) (req : AnalyzeRequest) (r : Results F) (d : Director F)
      (raw : RawDecision F)
      → raw_decision out (reload_prompt out d).current_prompt req.symbol r ≡ some raw
      → let decision = decide cfg req r raw in
        analyze_with_results cfg out now req r d
        ≡ act cfg now decision (store decision (reload_prompt out d))
  unfolding analyze_with_results
  analyze_made out now req r d raw h = rw (h, analyze_with_results)

  analyze_failed :
      (out : Outside F) (now : F) (req : AnalyzeRequest) (r : Results F) (d : Director F)
      → raw_decision out (reload_prompt out d).current_prompt req.symbol r ≡ none
      → analyze_with_results cfg out now req r d ≡ reload_prompt out d
  unfolding analyze_with_results
  analyze_failed out now req r d h = rw (h, analyze_with_results)

  raw_decision_approved :
      (out : Outside F) (p s : String) (r : Results F)
      → r.portfolio.approved ≡ true
      → raw_decision out p s r ≡ out.ask p s r
  unfolding raw_decision
  raw_decision_approved out p s r h = simp h

  -- The director does not look at the confidence of the model's answer: with any other confidence it
  -- sends the same signals at the same times, and the same cooldowns run.
  pub confidence_ignored :
      (out : Outside F) (now : F) (req : AnalyzeRequest) (r : Results F) (d : Director F) (c : F)
      → let other : Outside F = record out { ask = λ p s q. recast c (out.ask p s q) } in
        let d' = analyze_with_results cfg out now req r d in
        let d'' = analyze_with_results cfg other now req r d in
        (d''.signals ≡ d'.signals) × (d''.last_signal_ts ≡ d'.last_signal_ts)
  unfolding reload_prompt decide signal_of
  confidence_ignored out now req r d c =
      let other : Outside F = record out { ask = λ p s q. recast c (out.ask p s q) } in
      let prompt = (reload_prompt out d).current_prompt in
      elim (Bool-cases (r.portfolio.approved)) [
        | inr no_trade ↦
            let here = refused_sends_nothing out now req r d no_trade in
            let there = refused_sends_nothing other now req r d no_trade in
            (there.1 ∙ sym here.1, there.2 ∙ sym here.2)
        | inl approved ↦
            let here = raw_decision_approved out prompt req.symbol r approved in
            let there = raw_decision_approved other prompt req.symbol r approved in
            elim (Option-cases (out.ask prompt req.symbol r)) [
              | inl failed ↦
                  rw
                    (
                      analyze_failed out now req r d (here ∙ failed),
                      analyze_failed other now req r d (there ∙ ap (recast c) failed),
                    )
                    (refl, refl)
              | inr (raw, answered) ↦
                  rw
                    (
                      analyze_made out now req r d raw (here ∙ answered),
                      analyze_made other now req r d (record raw { confidence = c })
                          (there ∙ ap (recast c) answered),
                    )
                    (act-signals now (decide cfg req r raw)
                      (decide cfg req r (record raw { confidence = c })) (reload_prompt out d) refl
                      refl refl)
            ]
      ]

  -- A signal's size is the starting balance times a fraction that is the maximum or is not above it,
  -- rounded to cents, whatever the model answers.
  pub signal_size_capped :
      (x : DirectorDecision F)
      → (pct : F) × ((signal_of cfg x).size_usd ≡ fl.round (cfg.risk.starting_balance_usd ⊗ pct) 2)
        × ((pct ≡ cfg.risk.max_position_pct) ⊎ (lt cfg.risk.max_position_pct pct ≡ false))
  unfolding signal_of
  signal_size_capped x = (
    fmin x.size_pct cfg.risk.max_position_pct,
    refl,
    if_intro (λ p. (p ≡ cfg.risk.max_position_pct) ⊎ (lt cfg.risk.max_position_pct p ≡ false))
        (lt cfg.risk.max_position_pct x.size_pct) _ _ (λ _. inl refl) (λ below. inr below),
  )

  module _ (ex : IsExact F) where
    zero_sl :
        (side : Side) (pct : F)
        → fl.round nought 4 ≡ nought
        → fl.round (sl_of side nought pct) 4 ≡ nought
    zero_sl long pct rounded = rw ex.zero_mul rounded
    zero_sl short pct rounded = rw ex.zero_mul rounded

    -- On exact amounts, where zero rounds to zero: a decision whose entry price is zero, which is what
    -- the director takes when the indicators hold no closing price, is refused by the engine's guard,
    -- however many positions are open and whatever the equity is.
    pub priceless_signal_refused :
        (x : DirectorDecision F) (open_positions : ℕ) (equity : F)
        → fl.round nought 4 ≡ nought
        → x.entry_price ≡ nought
        → check cfg open_positions equity (signal_of cfg x) ≢ allowed
    unfolding signal_of
    priceless_signal_refused x n equity rounded h ok =
        let within = (check-IsWithinLimits cfg n equity (signal_of cfg x)).0 ok in
        let positive : le {F = F} (fl.round (sl_of x.side nought x.sl_pct) 4) nought ≡ false =
          rw h at within.sl_positive in
        let zero : le {F = F} nought nought ≡ false =
          rw (zero_sl x.side x.sl_pct rounded) at positive in
        cc (zero, (ex.le_iff nought nought).1 (omega arith))
