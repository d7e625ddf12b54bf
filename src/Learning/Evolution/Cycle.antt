-- ===== src/Learning/Evolution/Cycle.antt =====
-- `run_once` of learning/prompt_evolution.py.
-- An exception that leaves `run_once` is logged by `run`: what was written before stays.
use aicrypto_trader.Base.{
  String, ◌≡◌, ◌≢◌, refl, Option, none, some, true, List, [], ◌∷◌, Option-cases, inl, inr,
}
use aicrypto_trader.Dict.{Dict, get}
use aicrypto_trader.Float.{Float, literal}
use aicrypto_trader.Learning.{get_prompt, save_prompt}
use aicrypto_trader.Database.Joined.{Joined}
use aicrypto_trader.Database.Prompts.{get_agent_prompt, save_agent_prompt, other_prompt}
use aicrypto_trader.Learning.Evolution.{
  Prompts, TeacherAnswer, EvolutionOutside, default_prompts, score_agents, worst_from,
  get_worst_trades, build_critique_prompt,
}

abbrev pub default_of : String → String
default_of name = elim (get default_prompts name) [
  | none ↦ "You are a trading agent."
  | some prompt ↦ prompt
]

module _ {F : Type 0} ⦃fl : Float F⦄ where
  abbrev pub perf_or : Option F → F
  perf_or none = literal 5 1
  perf_or (some score) = score

  -- What follows the teacher's answer.
  unfoldable pub save_answer : String → TeacherAnswer F → Prompts F → Prompts F
  save_answer name answer p = elim (answer.improved_prompt) [
    | none ↦ p
    | some prompt ↦ record {
      rows = save_agent_prompt name prompt (some (perf_or answer.perf_score)) p.rows;
      cache = save_prompt true name p.cache;
    }
  ]

  unfoldable pub ask_teacher : EvolutionOutside F → String → Option String → Prompts F → Prompts F
  ask_teacher out name none p = p
  ask_teacher out name (some critique) p = elim (out.teacher critique) [
    | none ↦ p
    | some answer ↦ save_answer name answer p
  ]

  -- The cycle for the agent that was chosen.
  unfoldable pub evolve : EvolutionOutside F → List (Joined F) → String × F → Prompts F → Prompts F
  evolve out trades (name, score) p =
      let (current, cache) =
        get_prompt (λ n. some (get_agent_prompt n p.rows)) name (default_of name) p.cache in
      ask_teacher out name
        (build_critique_prompt out.four_digits name current (get_worst_trades trades name 10) score)
        (record { rows = p.rows; cache = cache })

  unfoldable pub run_once : EvolutionOutside F → List (Joined F) → Prompts F → Prompts F
  run_once out [] p = p
  run_once out (t ∷ ts) p = elim (score_agents (t ∷ ts)) [
    | [] ↦ p
    | ◌∷◌ s ss ↦ evolve out (t ∷ ts) (worst_from s ss) p
  ]

  save_answer_others :
      (name other : String) (answer : TeacherAnswer F) (p : Prompts F)
      → other ≢ name
      → get_agent_prompt other (save_answer name answer p).rows ≡ get_agent_prompt other p.rows
  unfolding save_answer
  save_answer_others name other answer p o = elim (Option-cases (answer.improved_prompt)) [
    | inl e ↦ rw (e, save_answer) refl
    | inr (prompt, e) ↦ rw (e, save_answer) (other_prompt name other prompt _ p.rows o)
  ]

  ask_teacher_others :
      (out : EvolutionOutside F) (name other : String) (critique : Option String) (p : Prompts F)
      → other ≢ name
      → get_agent_prompt other (ask_teacher out name critique p).rows
        ≡ get_agent_prompt other p.rows
  unfolding ask_teacher
  ask_teacher_others out name other none p o = refl
  ask_teacher_others out name other (some critique) p o =
      elim (Option-cases (out.teacher critique)) [
        | inl e ↦ rw (e, ask_teacher) refl
        | inr (answer, e) ↦ rw (e, ask_teacher) (save_answer_others name other answer p o)
      ]

  -- A cycle rewrites at most one agent's prompt: for trades that give scores, every agent other than
  -- the one with the first least score keeps its active prompt in the table, whatever the teacher
  -- answers and whatever fails; without scores all prompts and the cache stay.
  pub run_once_others :
      (out : EvolutionOutside F) (trades : List (Joined F)) (p : Prompts F) (other : String)
      → (score_agents trades ≡ [] → run_once out trades p ≡ p)
        × ((s : String × F) (ss : Dict F)
            → score_agents trades ≡ s ∷ ss
            → other ≢ (worst_from s ss).0
            → get_agent_prompt other (run_once out trades p).rows ≡ get_agent_prompt other p.rows)
  unfolding run_once evolve
  run_once_others out [] p other = (λ h. refl, λ s ss h o. refl)
  run_once_others out (t ∷ ts) p other = (
    λ h. rw (h, run_once) refl,
    λ s ss h o. rw (h, run_once) (ask_teacher_others out (worst_from s ss).0 other _ _ o),
  )
