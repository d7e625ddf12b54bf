-- ===== src/Tests/Messages.antt =====
-- The answers of the five agents to a sample request.
use aicrypto_trader.Base.{◌≡◌, refl, Option, some, none, List, [], ◌∷◌, true, All}
use aicrypto_trader.Dict.{get, put}
use aicrypto_trader.Float.Fixed.{Fixed, fixed_float}
use aicrypto_trader.Agents.Director.{analyze_with_results}
use aicrypto_trader.Agents.Director.Collect.{
  AgentResult, Inbox, begin_request, empty_inbox, begin_request-IsInSync, inbox_after-IsInSync,
  finish_request, IsInSync, inbox_after, nothing_arrived,
}
use aicrypto_trader.Agents.Director.Answers.{
  Agent, quant_agent, risk_agent, sentiment_agent, portfolio_agent, ml_agent, collects, answers,
  IsAnswer, answer_of, answer_of-IsAnswer, finish_request_answered,
}
use aicrypto_trader.Tests.Samples.{cfg, fixed}
use aicrypto_trader.Tests.Agents.{request, results, outside, start}

abbrev waiting : Inbox Fixed
waiting = begin_request "c1" empty_inbox

-- The ML agent is the first to answer; one message is not parsed.
abbrev arriving : List (Option (AgentResult Fixed))
arriving =
    some (answer_of ml_agent results)
    ∷ none
    ∷ some (answer_of portfolio_agent results)
    ∷ some (answer_of quant_agent results)
    ∷ some (answer_of risk_agent results)
    ∷ some (answer_of sentiment_agent results)
    ∷ []

all_came : (k : Agent) → answers "c1" k arriving ≡ true
all_came quant_agent = refl
all_came risk_agent = refl
all_came sentiment_agent = refl
all_came portfolio_agent = refl
all_came ml_agent = refl

waiting-IsInSync : IsInSync waiting
unfolding inbox_after
waiting-IsInSync = begin_request-IsInSync "c1" empty_inbox (inbox_after-IsInSync [])

nothing_came : get waiting.pending "c1" ≡ some nothing_arrived
unfolding get put begin_request
nothing_came = refl

own : (k : Agent) → IsAnswer results "c1" (some (answer_of k results))
own k = answer_of-IsAnswer k results "c1"

fitting : All (IsAnswer results "c1") arriving
fitting = (
  own ml_agent,
  (tt, (own portfolio_agent, (own quant_agent, (own risk_agent, (own sentiment_agent, tt))))),
)

finish_request_answered_example :
    (get (collects arriving waiting).events "c1" ≡ some true)
    × ((finish_request cfg outside (fixed 1000) request (collects arriving waiting) start).1
        ≡ analyze_with_results cfg outside (fixed 1000) request results start)
finish_request_answered_example =
    finish_request_answered cfg outside (fixed 1000) request results arriving waiting start
      waiting-IsInSync nothing_came fitting all_came
