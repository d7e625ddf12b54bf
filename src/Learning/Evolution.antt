-- ===== src/Learning/Evolution.antt =====
-- backend/src/cryptoswarm/learning/prompt_evolution.py: the rewriting of the worst agent's prompt.
-- The formatting of numbers and the teacher, a language model, are parameters. The statements on the
-- prompts end without an exception.
pub mod Cycle
pub mod Starved
use aicrypto_trader.Base.{
  cat, ℕ, String, Option, none, some, Bool, true, false, List, [], ◌∷◌, ◌++◌, length, take, str_eq,
  if◌then◌else◌, ◌>>=◌,
}
use aicrypto_trader.Int.{pos}
use aicrypto_trader.Dict.{Dict, get, put}
use aicrypto_trader.Float.{Float, ◌⊘◌, lt, eq, nought, of_int, literal, sum_from}
use aicrypto_trader.Bus.Messages.{ExitReason}
use aicrypto_trader.Learning.{Cache, get_prompt, save_prompt}
use aicrypto_trader.Database.{
  StoredReason, reported, session_reset, Json, text, real, whole, side_text,
}
use aicrypto_trader.Database.Joined.{Joined}
use aicrypto_trader.Database.Prompts.{PromptRow, get_agent_prompt, save_agent_prompt}

abbrev pub agent_names : List String
agent_names = "quant" ∷ "risk" ∷ "sentiment" ∷ "portfolio" ∷ "director" ∷ []

abbrev pub default_prompts : Dict String
default_prompts =
    (
      "quant",
      cat "You are a quantitative trading analyst for Binance USDM perpetual futures. " (
          cat "Given technical indicator values, identify the market regime and signal strength. "
            "Be concise and data-driven."),
    )
    ∷ (
      "risk",
      cat "You are a risk management specialist for crypto futures trading. "
          "Apply Kelly criterion conservatively. Protect capital above all else.",
    )
    ∷ (
      "sentiment",
      cat "You are a crypto market sentiment analyst. "
          "Combine news sentiment and market fear/greed data to assess market mood.",
    )
    ∷ (
      "portfolio",
      cat "You are a portfolio manager overseeing crypto futures positions. "
          "Assess correlation risk and concentration limits carefully.",
    )
    ∷ (
      "director",
      cat "You are the Chief Trading Officer of a multi-agent AI futures trading system. " (
          cat "Synthesize all agent signals into decisive, profitable trading decisions. "
            "Be aggressive on high-conviction signals, hold on conflicted ones."),
    )
    ∷ []

-- The table of the prompts and the store's cache.
pub record Prompts (F : Type 0) : Type 0 where
  pub rows : List (PromptRow F)
  pub cache : Cache

-- The teacher's answer; `none` is a field that is missing.
pub record TeacherAnswer (F : Type 0) : Type 0 where
  pub improved_prompt : Option String
  pub perf_score : Option F

-- `.4f` of a number, and the teacher on a critique, where `none` is an exception.
pub record EvolutionOutside (F : Type 0) : Type 0 where
  pub four_digits : F → String
  pub teacher : String → Option (TeacherAnswer F)

abbrev pub stored_reason_text : StoredReason → String
stored_reason_text (reported ExitReason.sl) = "sl"
stored_reason_text (reported ExitReason.tp) = "tp"
stored_reason_text (reported ExitReason.liq) = "liq"
stored_reason_text (reported ExitReason.manual) = "manual"
stored_reason_text (reported ExitReason.max_hold) = "max_hold"
stored_reason_text (reported ExitReason.direction_flip) = "direction_flip"
stored_reason_text session_reset = "session_reset"

-- A NULL is formatted as Python's `None`.
abbrev pub reason_or_none : Option StoredReason → String
reason_or_none none = "None"
reason_or_none (some r) = stored_reason_text r

abbrev pub is_agent_name : String → List String → Bool
is_agent_name name [] = false
is_agent_name name (n ∷ ns) = if str_eq n name then true else is_agent_name name ns

-- The agent of a value, where no number is an agent's name.
abbrev pub agent_in : {F : Type 0} → Option (Json F) → Option String
agent_in none = some "director"
agent_in (some (text t)) = some t
agent_in (some (real x)) = none
agent_in (some (whole n)) = none

module _ {F : Type 0} where
  -- `action.get("agent", "director")`
  unfoldable pub agent_of : Dict (Json F) → Option String
  agent_of action = agent_in (get action "agent")

  -- `scores[agent].append(reward)`
  abbrev pub append_score : Dict (List F) → String → F → Dict (List F)
  append_score scores agent reward = elim (get scores agent) [
    | none ↦ put scores agent (reward ∷ [])
    | some rs ↦ put scores agent (rs ++ (reward ∷ []))
  ]

  unfoldable pub collect_scores : List (Joined F) → Dict (List F) → Dict (List F)
  collect_scores [] scores = scores
  collect_scores (t ∷ ts) scores = collect_scores ts (elim (agent_of t.action) [
    | none ↦ scores
    | some agent ↦
        if is_agent_name agent agent_names then append_score scores agent t.reward else scores
  ])

  abbrev pub rewards_of : List (Joined F) → List F
  rewards_of [] = []
  rewards_of (t ∷ ts) = t.reward ∷ rewards_of ts

  abbrev pub is_trade_of : String → Joined F → Bool
  is_trade_of name t = elim (agent_of t.action) [ none ↦ false | some agent ↦ str_eq agent name ]

module _ {F : Type 0} ⦃fl : Float F⦄ where
  abbrev pub mean : List F → F
  mean rs = sum_from nought rs ⊘ of_int (pos (length rs))

  abbrev pub means : Dict (List F) → Dict F
  means [] = []
  means ((agent, rs) ∷ d) = (agent, mean rs) ∷ means d

  -- `_score_agents`
  unfoldable pub score_agents : List (Joined F) → Dict F
  score_agents trades = elim (collect_scores trades []) [
    | [] ↦ elim (rewards_of trades) [ [] ↦ [] | ◌∷◌ r rs ↦ ("director", mean (r ∷ rs)) ∷ [] ]
    | ◌∷◌ s ss ↦ means (s ∷ ss)
  ]

  -- `min(agent_scores, key=agent_scores.get)`: the first of those with the least score.
  unfoldable pub worst_from : String × F → Dict F → String × F
  worst_from best [] = best
  worst_from best (s ∷ ss) = worst_from (if lt s.1 best.1 then s else best) ss

  -- `sort` by the reward, which is stable
  abbrev pub by_reward : Joined F → List (Joined F) → List (Joined F)
  by_reward t [] = t ∷ []
  by_reward t (u ∷ us) = if lt u.reward t.reward then u ∷ by_reward t us else t ∷ u ∷ us

  unfoldable pub relevant : String → List (Joined F) → List (Joined F)
  relevant name [] = []
  relevant name (t ∷ ts) =
      let rest = relevant name ts in if is_trade_of name t then by_reward t rest else rest

  -- `_get_worst_trades`
  unfoldable pub get_worst_trades : List (Joined F) → String → ℕ → List (Joined F)
  get_worst_trades trades name n = take n (relevant name trades)

  -- A line of the critique; `float(None)` raises.
  unfoldable pub example_line : (F → String) → Joined F → Option String
  example_line digits t = do
    pnl ← t.realized_pnl
    some (
        cat "  Symbol: " (
          cat t.symbol (
            cat " Side: " (
              cat (side_text t.side) (
                cat " P&L: " (
                  cat (digits pnl) (
                    cat " Reward: "
                      (cat (digits t.reward) (cat " Exit: " (reason_or_none t.exit_reason))))))))))

  unfoldable pub example_lines : (F → String) → List (Joined F) → Option String
  example_lines digits [] = some ""
  example_lines digits (t ∷ []) = example_line digits t
  example_lines digits (t ∷ u ∷ us) = do
    line ← example_line digits t
    lines ← example_lines digits (u ∷ us)
    some (cat line (cat "\n" lines))

  abbrev pub examples_or : List (Joined F) → Option String → Option String
  examples_or [] lines = some "  (no examples available)"
  examples_or (t ∷ ts) lines = lines

  -- `_build_critique_prompt`
  unfoldable pub build_critique_prompt :
      (F → String) → String → String → List (Joined F) → F → Option String
  build_critique_prompt digits name current worst avg_score = do
    examples ← examples_or worst (example_lines digits (take 5 worst))
    some (
        cat "Agent: " (
          cat name (
            cat "\nCurrent average reward: " (
              cat (digits avg_score) (
                cat " (negative = losing money)\n\nCurrent system prompt:\n" (
                  cat current (
                    cat "\n\nWorst performing trades this agent contributed to:\n" (
                      cat examples (
                        cat "\n\nRewrite the system prompt to avoid these failure patterns. " (
                          cat "Make the agent more profitable, better at cutting losses, " (
                            cat "and more aggressive on high-conviction opportunities. "
                              "Keep the improved prompt under 400 words.")))))))))))
