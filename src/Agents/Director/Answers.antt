-- ===== src/Agents/Director/Answers.antt =====
-- The director and its five agents: every answer counts, in whatever order they come.
use aicrypto_trader.Base.{
  String, ◌≡◌, refl, ap, ◌∙◌, ◌⊎◌, inl, inr, Option, none, some, Bool, true, false, ◌&&◌, ◌||◌,
  List, [], ◌∷◌, arith, eq_iff, str_eq, if◌then◌else◌, Option-cases, Bool-cases, All,
}
use aicrypto_trader.Dict.{get, get-put}
use aicrypto_trader.Float.{Float}
use aicrypto_trader.Config.{Settings}
use aicrypto_trader.Agents.Messages.{AnalyzeRequest}
use aicrypto_trader.Agents.Director.{Results, Director, Outside, analyze_with_results}
use aicrypto_trader.Agents.Director.Collect.{
  Arrived, AgentResult, Inbox, correlation_id_of, note_result, nothing_arrived, collect,
  finish_request, IsInSync, collect-IsInSync,
}

pub data Agent : Type 0 where
  quant_agent risk_agent sentiment_agent portfolio_agent ml_agent : Agent

module _ {F : Type 0} where
  -- Whether the result is of the agent's type.
  abbrev pub is_from : Agent → AgentResult F → Bool
  is_from quant_agent m = elim m [ AgentResult.quant x ↦ true | _ ↦ false ]
  is_from risk_agent m = elim m [ AgentResult.risk x ↦ true | _ ↦ false ]
  is_from sentiment_agent m = elim m [ AgentResult.sentiment x ↦ true | _ ↦ false ]
  is_from portfolio_agent m = elim m [ AgentResult.portfolio x ↦ true | _ ↦ false ]
  is_from ml_agent m = elim m [ AgentResult.ml x ↦ true | _ ↦ false ]

  -- The agent's answer among the five.
  abbrev pub answer_of : Agent → Results F → AgentResult F
  answer_of quant_agent r = AgentResult.quant r.quant
  answer_of risk_agent r = AgentResult.risk r.risk
  answer_of sentiment_agent r = AgentResult.sentiment r.sentiment
  answer_of portfolio_agent r = AgentResult.portfolio r.portfolio
  answer_of ml_agent r = AgentResult.ml r.ml

  abbrev wrap : {A : Type 0} → (A → AgentResult F) → Option A → Option (AgentResult F)
  wrap f none = none
  wrap f (some x) = some (f x)

  abbrev slot : Agent → Arrived F → Option (AgentResult F)
  slot quant_agent a = wrap AgentResult.quant a.quant
  slot risk_agent a = wrap AgentResult.risk a.risk
  slot sentiment_agent a = wrap AgentResult.sentiment a.sentiment
  slot portfolio_agent a = wrap AgentResult.portfolio a.portfolio
  slot ml_agent a = wrap AgentResult.ml a.ml

  slot-note_result :
      (k : Agent) (m : AgentResult F) (a : Arrived F)
      → slot k (note_result m a) ≡ (if is_from k m then some m else slot k a)
  slot-note_result quant_agent m a = ground arith
  slot-note_result risk_agent m a = ground arith
  slot-note_result sentiment_agent m a = ground arith
  slot-note_result portfolio_agent m a = ground arith
  slot-note_result ml_agent m a = ground arith

  -- The messages of `_collect_results`, in their order.
  unfoldable pub collects : List (Option (AgentResult F)) → Inbox F → Inbox F
  collects [] box = box
  collects (m ∷ ms) box = collects ms (collect m box)

  abbrev note_if : String → AgentResult F → Arrived F → Arrived F
  note_if cid m a = if str_eq (correlation_id_of m) cid then note_result m a else a

  abbrev arrived_after : String → List (Option (AgentResult F)) → Arrived F → Arrived F
  arrived_after cid [] a = a
  arrived_after cid (none ∷ ms) a = arrived_after cid ms a
  arrived_after cid (some m ∷ ms) a = arrived_after cid ms (note_if cid m a)

  get-collect :
      (cid : String) (m : AgentResult F) (a : Arrived F) (box : Inbox F)
      → get box.pending cid ≡ some a
      → get (collect (some m) box).pending cid ≡ some (note_if cid m a)
  unfolding collect
  get-collect cid m a box h = elim (Option-cases (get box.pending (correlation_id_of m))) [
    | inl gone ↦ rw (gone, collect) (ground (arith, eq_iff (correlation_id_of m) cid))
    | inr (b, there) ↦
        rw (there, collect)
          (ground (
            arith,
            get-put box.pending (correlation_id_of m) cid (note_result m b),
            eq_iff (correlation_id_of m) cid,
          ))
  ]

  get-collects :
      (cid : String) (ms : List (Option (AgentResult F))) (a : Arrived F) (box : Inbox F)
      → get box.pending cid ≡ some a
      → get (collects ms box).pending cid ≡ some (arrived_after cid ms a)
  unfolding collects collect
  get-collects cid [] a box h = h
  get-collects cid (none ∷ ms) a box h = get-collects cid ms a box h
  get-collects cid (some m ∷ ms) a box h =
      get-collects cid ms (note_if cid m a) (collect (some m) box) (get-collect cid m a box h)

  collects-IsInSync :
      (ms : List (Option (AgentResult F))) (box : Inbox F)
      → IsInSync box
      → IsInSync (collects ms box)
  unfolding collects
  collects-IsInSync [] box h = h
  collects-IsInSync (m ∷ ms) box h = collects-IsInSync ms (collect m box) (collect-IsInSync m box h)

  -- A message of the request is the answer of its agent.
  abbrev pub IsAnswer : Results F → String → Option (AgentResult F) → Type 0
  IsAnswer r cid none = Unit
  IsAnswer r cid (some m) =
      correlation_id_of m ≡ cid → (k : Agent) → is_from k m ≡ true → answer_of k r ≡ m

  pub answer_of-IsAnswer :
      (k : Agent) (r : Results F) (cid : String) → IsAnswer r cid (some (answer_of k r))
  answer_of-IsAnswer quant_agent r cid same k h = ground arith
  answer_of-IsAnswer risk_agent r cid same k h = ground arith
  answer_of-IsAnswer sentiment_agent r cid same k h = ground arith
  answer_of-IsAnswer portfolio_agent r cid same k h = ground arith
  answer_of-IsAnswer ml_agent r cid same k h = ground arith

  -- The agent's answer to the request is among the messages.
  abbrev pub answers : String → Agent → List (Option (AgentResult F)) → Bool
  answers cid k [] = false
  answers cid k (none ∷ ms) = answers cid k ms
  answers cid k (some m ∷ ms) =
      (str_eq (correlation_id_of m) cid && is_from k m) || answers cid k ms

  slot-note_if :
      (r : Results F) (cid : String) (k : Agent) (m : AgentResult F)
      (ms : List (Option (AgentResult F))) (a : Arrived F)
      → IsAnswer r cid (some m)
      → (slot k a ≡ some (answer_of k r)) ⊎ (answers cid k (some m ∷ ms) ≡ true)
      → (slot k (note_if cid m a) ≡ some (answer_of k r)) ⊎ (answers cid k ms ≡ true)
  slot-note_if r cid k m ms a same h = elim (Bool-cases (str_eq (correlation_id_of m) cid)) [
    | inr off ↦ ground (arith, off)
    | inl on ↦
        let cid_eq = (eq_iff (correlation_id_of m) cid).0 on in
        ground (arith, on, slot-note_result k m a, same cid_eq k)
  ]

  slot_after :
      (r : Results F) (cid : String) (k : Agent) (ms : List (Option (AgentResult F)))
      (a : Arrived F)
      → All (IsAnswer r cid) ms
      → (slot k a ≡ some (answer_of k r)) ⊎ (answers cid k ms ≡ true)
      → slot k (arrived_after cid ms a) ≡ some (answer_of k r)
  slot_after r cid k [] a fit (inl h) = h
  slot_after r cid k [] a fit (inr h) = ground arith
  slot_after r cid k (none ∷ ms) a (_, fit) h = slot_after r cid k ms a fit h
  slot_after r cid k (some m ∷ ms) a (same, fit) h =
      slot_after r cid k ms (note_if cid m a) fit (slot-note_if r cid k m ms a same h)

  abbrev answered : Results F → Arrived F
  answered r = record {
    quant = some r.quant;
    risk = some r.risk;
    sentiment = some r.sentiment;
    portfolio = some r.portfolio;
    ml = some r.ml;
  }

  slots_determine :
      (a : Arrived F) (r : Results F)
      → ((k : Agent) → slot k a ≡ some (answer_of k r))
      → a ≡ answered r
  slots_determine a r h =
      let q = h quant_agent in
      let s = h risk_agent in
      let t = h sentiment_agent in let p = h portfolio_agent in let m = h ml_agent in ground arith

  get-collects-answered :
      (r : Results F) (cid : String) (ms : List (Option (AgentResult F))) (box : Inbox F)
      → get box.pending cid ≡ some nothing_arrived
      → All (IsAnswer r cid) ms
      → ((k : Agent) → answers cid k ms ≡ true)
      → get (collects ms box).pending cid ≡ some (answered r)
  get-collects-answered r cid ms box waits fit came =
      let all_in =
        slots_determine (arrived_after cid ms nothing_arrived) r
          (λ k. slot_after r cid k ms nothing_arrived fit (inr (came k))) in
      get-collects cid ms nothing_arrived box waits ∙ ap (λ a. some a) all_in

module _ {F : Type 0} ⦃fl : Float F⦄ where
  -- If the answers of all five agents to a request are among the messages that come while it waits,
  -- in any order, repeated, and mixed with messages of other requests, then the event of the request
  -- is set, and the director analyses exactly these five answers.
  pub finish_request_answered :
      (cfg : Settings F) (out : Outside F) (now : F) (req : AnalyzeRequest) (r : Results F)
      (ms : List (Option (AgentResult F))) (box : Inbox F) (d : Director F)
      → IsInSync box
      → get box.pending req.correlation_id ≡ some nothing_arrived
      → All (IsAnswer r req.correlation_id) ms
      → ((k : Agent) → answers req.correlation_id k ms ≡ true)
      → (get (collects ms box).events req.correlation_id ≡ some true)
        × ((finish_request cfg out now req (collects ms box) d).1
            ≡ analyze_with_results cfg out now req r d)
  unfolding finish_request
  finish_request_answered cfg out now req r ms box d sync waits fit came =
      let there = get-collects-answered r req.correlation_id ms box waits fit came in
      (collects-IsInSync ms box sync req.correlation_id ∙ rw there refl, rw there refl)
