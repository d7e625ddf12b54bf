-- ===== src/Agents/Director/Cooldown.antt =====
-- The cooldown of agents/director.py over a whole series of analyses.
use aicrypto_trader.Base.{
  String, ◌≡◌, refl, Option, none, some, false, List, [], ◌∷◌, arith, str_eq, if◌then◌else◌,
  if_intro, Option-cases, inl, inr,
}
use aicrypto_trader.Dict.{get, get-put}
use aicrypto_trader.Float.{Float, ◌⊖◌, lt, nought}
use aicrypto_trader.Config.{Settings}
use aicrypto_trader.Bus.Messages.{Signal}
use aicrypto_trader.Agents.Messages.{AnalyzeRequest, DirectorDecision}
use aicrypto_trader.Agents.Director.{
  Results, Director, Outside, reload_prompt, raw_decision, decide, signal_of, act, value_or,
  is_hold, store, signal_cooldown_s, analyze_with_results,
}

-- One analysis: when it runs, what it asks for, its results and what lies outside.
pub record Analysis (F : Type 0) : Type 0 where
  pub now : F
  pub request : AnalyzeRequest
  pub results : Results F
  pub outside : Outside F

module _ {F : Type 0} where
  -- The time of the latest signal for a symbol.
  abbrev pub latest : String → List (Signal F × F) → Option F
  latest k [] = none
  latest k ((s, t) ∷ l) = if str_eq s.symbol k then some t else latest k l

module _ {F : Type 0} ⦃fl : Float F⦄ where
  unfoldable pub analyses : Settings F → List (Analysis F) → Director F → Director F
  analyses cfg [] d = d
  analyses cfg (a ∷ rest) d =
      analyses cfg rest (analyze_with_results cfg a.outside a.now a.request a.results d)

  -- Each signal comes at least the cooldown after the signal before it for the same symbol.
  abbrev pub IsSpaced : List (Signal F × F) → Type 0
  IsSpaced [] = Unit
  IsSpaced ((s, t) ∷ l) =
      ((t' : F) → latest s.symbol l ≡ some t' → lt (t ⊖ t') signal_cooldown_s ≡ false) × IsSpaced l

  abbrev IsCooling : Director F → Type 0
  IsCooling d = ((k : String) → get d.last_signal_ts k ≡ latest k d.signals) × IsSpaced d.signals

  act-IsCooling :
      (cfg : Settings F) (now : F) (x : DirectorDecision F) (d : Director F)
      → IsCooling d
      → IsCooling (act cfg now x d)
  unfolding act signal_of
  act-IsCooling cfg now x d (stamped, spaced) =
      let last_ts = value_or (get d.last_signal_ts x.symbol) nought in
      if_intro IsCooling (is_hold x.action) _ _ (λ _. (stamped, spaced))
        λ _.
          if_intro IsCooling (lt (now ⊖ last_ts) signal_cooldown_s) _ _ (λ _. (stamped, spaced))
            λ late. (
              λ k. ground (arith, get-put d.last_signal_ts x.symbol k now, stamped k),
              (λ t h. ground (arith, stamped x.symbol, late), spaced),
            )

  analyze-IsCooling :
      (cfg : Settings F) (a : Analysis F) (d : Director F)
      → IsCooling d
      → IsCooling (analyze_with_results cfg a.outside a.now a.request a.results d)
  unfolding analyze_with_results reload_prompt
  analyze-IsCooling cfg a d c =
      let ready = reload_prompt a.outside d in
      elim (Option-cases (raw_decision a.outside ready.current_prompt a.request.symbol a.results)) [
        | inl failed ↦ rw (failed, analyze_with_results) c
        | inr (raw, made) ↦
            let decision = decide cfg a.request a.results raw in
            rw (made, analyze_with_results)
              (act-IsCooling cfg a.now decision (store decision ready) c)
      ]

  analyses-IsCooling :
      (cfg : Settings F) (series : List (Analysis F)) (d : Director F)
      → IsCooling d
      → IsCooling (analyses cfg series d)
  unfolding analyses
  analyses-IsCooling cfg [] d c = c
  analyses-IsCooling cfg (a ∷ rest) d c =
      analyses-IsCooling cfg rest _ (analyze-IsCooling cfg a d c)

  abbrev pub new_director : String → Director F
  new_director prompt = record {
    cycle_count = 0;
    current_prompt = prompt;
    last_signal_ts = [];
    decisions = [];
    signals = [];
  }

  -- Over any series of analyses of a new director, whatever the models answer, two successive
  -- signals for one symbol never come less than the cooldown of 300 seconds apart.
  pub analyses-IsSpaced :
      (cfg : Settings F) (prompt : String) (series : List (Analysis F))
      → IsSpaced (analyses cfg series (new_director prompt)).signals
  unfolding get
  analyses-IsSpaced cfg prompt series =
      (analyses-IsCooling cfg series (new_director prompt) (λ k. refl, tt)).1
