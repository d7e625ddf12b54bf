-- ===== src/Agents/Director/Collect.antt =====
-- `_collect_results` and `_analyze_symbol` of agents/director.py: which results an analysis waits for.
use aicrypto_trader.Base.{
  String, ◌≡◌, ◌≢◌, refl, Option, none, some, Bool, true, false, ◌&&◌, List, [], ◌∷◌, arith, eq_iff,
  if◌then◌else◌, Option-cases, Bool-cases, inl, inr, ◌>>=◌,
}
use aicrypto_trader.Dict.{Dict, get, put, pop, get-put, get-pop}
use aicrypto_trader.Float.{Float}
use aicrypto_trader.Config.{Settings}
use aicrypto_trader.Agents.Messages.{
  AnalyzeRequest, QuantResult, RiskResult, SentimentResult, PortfolioResult, MlSignal,
}
use aicrypto_trader.Agents.Director.{Results, Director, Outside, analyze_with_results}

-- The results that have arrived for one request: the dictionary `self._pending[cid]`, whose keys are
-- among the five result types.
pub record Arrived (F : Type 0) : Type 0 where
  pub quant : Option (QuantResult F)
  pub risk : Option (RiskResult F)
  pub sentiment : Option (SentimentResult F)
  pub portfolio : Option (PortfolioResult F)
  pub ml : Option (MlSignal F)

-- A result of one of the types, as it is parsed from its topic and text.
pub data AgentResult (F : Type 0) : Type 0 where
  quant : QuantResult F → AgentResult F
  risk : RiskResult F → AgentResult F
  sentiment : SentimentResult F → AgentResult F
  portfolio : PortfolioResult F → AgentResult F
  ml : MlSignal F → AgentResult F

-- `self._pending`, and whether each event is set.
pub record Inbox (F : Type 0) : Type 0 where
  pub pending : Dict (Arrived F)
  pub events : Dict Bool

abbrev pub present : {A : Type 0} → Option A → Bool
present none = false
present (some a) = true

module _ {F : Type 0} where
  abbrev pub nothing_arrived : Arrived F
  nothing_arrived = record {
    quant = none;
    risk = none;
    sentiment = none;
    portfolio = none;
    ml = none;
  }

  abbrev pub correlation_id_of : AgentResult F → String
  correlation_id_of (quant m) = m.correlation_id
  correlation_id_of (risk m) = m.correlation_id
  correlation_id_of (sentiment m) = m.correlation_id
  correlation_id_of (portfolio m) = m.correlation_id
  correlation_id_of (ml m) = m.correlation_id

  abbrev pub note_result : AgentResult F → Arrived F → Arrived F
  note_result (quant m) a = record a { quant = some m }
  note_result (risk m) a = record a { risk = some m }
  note_result (sentiment m) a = record a { sentiment = some m }
  note_result (portfolio m) a = record a { portfolio = some m }
  note_result (ml m) a = record a { ml = some m }

  -- `_REQUIRED_AGENTS.issubset(...)`
  abbrev pub is_complete : Arrived F → Bool
  is_complete a =
      present a.quant
      && present a.risk
      && present a.sentiment
      && present a.portfolio
      && present a.ml

  abbrev pub completeness : Option (Arrived F) → Option Bool
  completeness none = none
  completeness (some a) = some (is_complete a)

  -- One message of `_collect_results`; `none` is one that is skipped or not parsed.
  unfoldable pub collect : Option (AgentResult F) → Inbox F → Inbox F
  collect none box = box
  collect (some m) box =
      let cid = correlation_id_of m in
      elim (get box.pending cid) [
        | none ↦ box
        | some a ↦
            let noted = put box.pending cid (note_result m a) in
            if is_complete (note_result m a)
            then record { pending = noted; events = put box.events cid true }
            else record { pending = noted; events = box.events }
      ]

  -- `_analyze_symbol` up to its wait.
  unfoldable pub begin_request : String → Inbox F → Inbox F
  begin_request cid box = record {
    pending = put box.pending cid nothing_arrived;
    events = put box.events cid false;
  }

  -- The `finally` block.
  unfoldable pub end_request : String → Inbox F → Inbox F
  end_request cid box = record { pending = pop box.pending cid; events = pop box.events cid }

  -- All five results, if they have arrived.
  abbrev pub all_results : Arrived F → Option (Results F)
  all_results a = do
    q ← a.quant
    r ← a.risk
    s ← a.sentiment
    p ← a.portfolio
    m ← a.ml
    some (record { quant = q; risk = r; sentiment = s; portfolio = p; ml = m })

  -- The events say which of the waiting requests have all their results.
  abbrev pub IsInSync : Inbox F → Type 0
  IsInSync box = (cid : String) → get box.events cid ≡ completeness (get box.pending cid)

  is_complete-note_result :
      (m : AgentResult F) (a : Arrived F)
      → is_complete a ≡ true
      → is_complete (note_result m a) ≡ true
  is_complete-note_result (quant m) a h = ground arith
  is_complete-note_result (risk m) a h = ground arith
  is_complete-note_result (sentiment m) a h = ground arith
  is_complete-note_result (portfolio m) a h = ground arith
  is_complete-note_result (ml m) a h = ground arith

  note-IsInSync :
      (m : AgentResult F) (a : Arrived F) (box : Inbox F)
      → get box.pending (correlation_id_of m) ≡ some a
      → IsInSync box
      → IsInSync (collect (some m) box)
  unfolding collect
  note-IsInSync m a box h sync cid =
      let id = correlation_id_of m in
      let kept = is_complete-note_result m a in
      rw (h, collect)
        (ground (
          arith,
          get-put box.pending id cid (note_result m a),
          get-put box.events id cid true,
          eq_iff id cid,
          sync cid,
          kept,
        ))

  pub collect-IsInSync :
      (m : Option (AgentResult F)) (box : Inbox F) → IsInSync box → IsInSync (collect m box)
  unfolding collect
  collect-IsInSync none box sync = sync
  collect-IsInSync (some m) box sync = elim (Option-cases (get box.pending (correlation_id_of m))) [
    | inl h ↦ rw (h, collect) sync
    | inr (a, h) ↦ note-IsInSync m a box h sync
  ]

  pub begin_request-IsInSync :
      (cid : String) (box : Inbox F) → IsInSync box → IsInSync (begin_request cid box)
  unfolding begin_request
  begin_request-IsInSync id box sync cid =
      ground (
        arith,
        get-put box.pending id cid nothing_arrived,
        get-put box.events id cid false,
        sync cid,
      )

  pub end_request-IsInSync :
      (cid : String) (box : Inbox F) → IsInSync box → IsInSync (end_request cid box)
  unfolding end_request
  end_request-IsInSync id box sync cid =
      ground (arith, get-pop box.pending id cid, get-pop box.events id cid, sync cid)

  all_results-none : (a : Arrived F) → is_complete a ≡ false → all_results a ≡ none
  all_results-none a h = ground arith

module _ {F : Type 0} ⦃fl : Float F⦄ where
  abbrev arrived_or_none : Option (Arrived F) → Arrived F
  arrived_or_none none = nothing_arrived
  arrived_or_none (some a) = a

  abbrev analyze_if :
      Settings F → Outside F → F → AnalyzeRequest → Option (Results F) → Director F → Director F
  analyze_if cfg out now req none d = d
  analyze_if cfg out now req (some r) d = analyze_with_results cfg out now req r d

  -- `_analyze_symbol` after its wait, whether the event was set or the time ran out.
  unfoldable pub finish_request :
      Settings F → Outside F → F → AnalyzeRequest → Inbox F → Director F → Inbox F × Director F
  finish_request cfg out now req box d =
      let arrived = arrived_or_none (get box.pending req.correlation_id) in
      (end_request req.correlation_id box, analyze_if cfg out now req (all_results arrived) d)

-- What happens to the inbox: a request begins, a message arrives, a request ends.
pub data InboxStep (F : Type 0) : Type 0 where
  begins : String → InboxStep F
  arrives : Option (AgentResult F) → InboxStep F
  ends : String → InboxStep F

module _ {F : Type 0} where
  unfoldable pub inbox_after : List (InboxStep F) → Inbox F → Inbox F
  inbox_after [] box = box
  inbox_after (begins cid ∷ steps) box = inbox_after steps (begin_request cid box)
  inbox_after (arrives m ∷ steps) box = inbox_after steps (collect m box)
  inbox_after (ends cid ∷ steps) box = inbox_after steps (end_request cid box)

  inbox_after_keeps :
      (steps : List (InboxStep F)) (box : Inbox F) → IsInSync box → IsInSync (inbox_after steps box)
  unfolding inbox_after
  inbox_after_keeps [] box h = h
  inbox_after_keeps (begins cid ∷ steps) box h =
      inbox_after_keeps steps (begin_request cid box) (begin_request-IsInSync cid box h)
  inbox_after_keeps (arrives m ∷ steps) box h =
      inbox_after_keeps steps (collect m box) (collect-IsInSync m box h)
  inbox_after_keeps (ends cid ∷ steps) box h =
      inbox_after_keeps steps (end_request cid box) (end_request-IsInSync cid box h)

  abbrev pub empty_inbox : Inbox F
  empty_inbox = record { pending = []; events = [] }

  pub inbox_after-IsInSync : (steps : List (InboxStep F)) → IsInSync (inbox_after steps empty_inbox)
  unfolding get
  inbox_after-IsInSync steps = inbox_after_keeps steps empty_inbox (λ cid. refl)

module _ {F : Type 0} ⦃fl : Float F⦄ where
  -- A request that ends before all five results have arrived, or that is not there, changes nothing
  -- of the director: no prompt is read, no decision is stored, no signal is published.
  pub finish_request_incomplete :
      (cfg : Settings F) (out : Outside F) (now : F) (req : AnalyzeRequest) (box : Inbox F)
      (d : Director F)
      → completeness (get box.pending req.correlation_id) ≢ some true
      → (finish_request cfg out now req box d).1 ≡ d
  unfolding finish_request
  finish_request_incomplete cfg out now req box d h =
      elim (Option-cases (get box.pending req.correlation_id)) [
        | inl gone ↦ rw gone
        | inr (a, there) ↦ rw there (rw (all_results-none a (incomplete a there)))
      ]
    where
      incomplete :
          (a : Arrived F) → get box.pending req.correlation_id ≡ some a → is_complete a ≡ false
      incomplete a there = elim (Bool-cases (is_complete a)) [
        | inl full ↦ absurd (h (rw there (rw full)))
        | inr short ↦ short
      ]
