-- ===== src/PaperTrade/Engine/Tasks/Orderly.antt =====
-- The books of papertrade/engine.py in every order of the tasks.
use aicrypto_trader.Base.{
  ℕ, eq_iff, String, Option, none, some, Bool, ◌≡◌, refl, sym, arith, ap, Option-cases, ◌⊎◌, inl,
  inr, ◌∙◌,
}
use aicrypto_trader.Dict.{get, get-put}
use aicrypto_trader.Float.{Float}
use aicrypto_trader.Config.{Settings}
use aicrypto_trader.Bus.Messages.{Signal, MarkPrice}
use aicrypto_trader.PaperTrade.Account.{update_mark}
use aicrypto_trader.PaperTrade.Engine.{Engine, publish_position_update}
use aicrypto_trader.PaperTrade.Engine.Run.{reset, handle, reset_breakers}
use aicrypto_trader.PaperTrade.Engine.Ledger.{view}
use aicrypto_trader.PaperTrade.Engine.Refines.{publish_position_update-view}
use aicrypto_trader.PaperTrade.Engine.Invariant.{
  IsOrderly, marks-IsOrderly, update_mark-open_positions,
}
use aicrypto_trader.PaperTrade.Engine.Safety.{new_engine-IsOrderly, handle-IsOrderly}
use aicrypto_trader.PaperTrade.Engine.Tasks.{
  Task, idle, dead, after_closed, after_tripped, after_update, after_executed, last_publish,
  Segment, start_mark, resume,
}
use aicrypto_trader.PaperTrade.Engine.Tasks.Segments.{
  next_of, IsKept, IsFreeNext, same_books, announce_segment-IsKept, count_segment-IsKept,
  mark_segment-IsKept, check_segment-IsOrderly, start_signal-IsOrderly,
}
use aicrypto_trader.PaperTrade.Engine.Tasks.System.{
  System, signals_after, marks_after, Turn, signal_arrives, mark_arrives, signals_resume,
  marks_resume, resets, Reach, start, later,
}

module _ {F : Type 0} ⦃fl : Float F⦄ (cfg : Settings F) (json_entry : String → Option F) where
  abbrev cap : ℕ
  cap = cfg.risk.max_concurrent_positions

  update_mark-loses :
      (e : Engine F) (s k : String) (mark : F)
      → get e.account.open_positions k ≡ none
      → get (update_mark e.account s mark).open_positions k ≡ none
  update_mark-loses e s k mark h = elim (update_mark-open_positions e.account s mark) [
    | inl same ↦ rw (same.1) h
    | inr (p, found, there) ↦ rw there (
        ground (
          arith,
          get-put e.account.open_positions s k (record p { mark_price = mark }),
          h,
          found,
          eq_iff s k,
        ))
  ]

  start_mark-IsKept :
      (now : F) (m : MarkPrice F) (e : Engine F) → IsKept cfg none e (start_mark cfg now m e)
  unfolding start_mark
  start_mark-IsKept now m e = elim (Option-cases (get e.account.open_positions m.symbol)) [
    | inl h ↦ rw (h, start_mark) (same_books cfg none e (idle, _) refl refl (λ t g. g))
    | inr (p, h) ↦
        let kept = mark_segment-IsKept cfg now m (record p { mark_price = m.mark_price }) _ in
        rw (h, start_mark)
          (record {
            orderly = λ o. kept.orderly (marks-IsOrderly cap (view e) m.symbol m.mark_price o);
            loses = λ k g. kept.loses k (update_mark-loses e m.symbol k m.mark_price g);
            next_kept = kept.next_kept;
          })
  ]

  -- A task that goes on keeps the books, but for a flip that goes on with its signal.
  resume-cases :
      (now : F) (t : Task F) (e : Engine F)
      → IsKept cfg (next_of t) e (resume cfg json_entry now t e)
        ⊎ ((s : Signal F) × (t ≡ after_update (some s)))
  unfolding resume
  resume-cases now idle e = inl (same_books cfg none e (idle, e) refl refl (λ t g. g))
  resume-cases now dead e = inl (same_books cfg none e (dead, e) refl refl (λ t g. g))
  resume-cases now (after_closed p s x r net next) e =
      inl (count_segment-IsKept cfg p s x r net next e)
  resume-cases now (after_tripped p s x r next) e = inl (announce_segment-IsKept cfg p s x r next e)
  resume-cases now (after_update none) e =
      inl (same_books cfg none e (idle, e) refl refl (λ t g. g))
  resume-cases now (after_update (some s)) e = inr (s, refl)
  resume-cases now (after_executed s) e = inl (
      same_books cfg none e (last_publish, publish_position_update s e)
        (ap (λ v. v.account) (publish_position_update-view s e))
        (ap (λ v. v.ledger) (publish_position_update-view s e)) (λ t g. g))
  resume-cases now last_publish e = inl (same_books cfg none e (idle, e) refl refl (λ t g. g))

  -- The books are orderly, the symbol of a signal that a flip still has to place is free, and the
  -- handler of the marks has no signal to place.
  record IsSafe (y : System F) : Type 0 where
    orderly : IsOrderly cap (view y.engine)
    free : IsFreeNext cfg (y.signals, y.engine)
    no_next : next_of y.marks ≡ none

  signals_resume-IsSafe :
      (now : F) (y : System F)
      → IsSafe y
      → IsSafe (signals_after (resume cfg json_entry now y.signals y.engine) y)
  unfolding resume
  signals_resume-IsSafe now y i = elim (resume-cases now y.signals y.engine) [
    | inl kept ↦ record {
      orderly = kept.orderly i.orderly;
      free = λ s h. kept.loses s.symbol (i.free s (kept.next_kept s h));
      no_next = i.no_next;
    }
    | inr (s, h) ↦
        let free = i.free s (rw h refl) in
        let placed = check_segment-IsOrderly cfg json_entry now s y.engine free i.orderly in
        rw (h, resume)
          (record {
            orderly = placed.0;
            free = λ t g. absurd (cc (g, placed.1));
            no_next = i.no_next;
          })
  ]

  -- A turn of the marks.
  marks_after-IsSafe :
      (y : System F) (r : Segment F) (next : Option (Signal F))
      → IsKept cfg next y.engine r
      → next ≡ none
      → IsSafe y
      → IsSafe (marks_after r y)
  marks_after-IsSafe y (t, e) next kept nothing i = record {
    orderly = kept.orderly i.orderly;
    free = λ s h. kept.loses s.symbol (i.free s h);
    no_next = elim (Option-cases (next_of t)) [
      | inl h ↦ h
      | inr (s, h) ↦ absurd (cc (kept.next_kept s h, nothing))
    ];
  }

  module _ (resettable : Bool) where
    Turn-IsSafe : {y z : System F} → Turn cfg json_entry resettable y z → IsSafe y → IsSafe z
    unfolding reset_breakers handle
    Turn-IsSafe {y} (signal_arrives now s h) i =
        let started = start_signal-IsOrderly cfg json_entry now s y.engine i.orderly in
        record { orderly = started.0; free = started.1; no_next = i.no_next }
    Turn-IsSafe {y} (mark_arrives now m h) i =
        marks_after-IsSafe y _ none (start_mark-IsKept now m y.engine) refl i
    Turn-IsSafe {y} (signals_resume now) i = signals_resume-IsSafe now y i
    Turn-IsSafe {y} (marks_resume now) i = elim (resume-cases now y.marks y.engine) [
      | inl kept ↦ marks_after-IsSafe y _ (next_of y.marks) kept i.no_next i
      | inr (s, h) ↦ absurd (cc (sym (ap next_of h) ∙ i.no_next))
    ]
    Turn-IsSafe {y} (resets allowed) i = record {
      orderly = handle-IsOrderly cfg json_entry reset y.engine i.orderly;
      free = i.free;
      no_next = i.no_next;
    }

    Reach-IsSafe : {y : System F} → Reach cfg json_entry resettable y → IsSafe y
    Reach-IsSafe start = record {
      orderly = new_engine-IsOrderly cfg json_entry;
      free = λ s h. absurd (cc h);
      no_next = refl;
    }
    Reach-IsSafe (later r turn) = Turn-IsSafe turn (Reach-IsSafe r)

    -- However the event loop interleaves the two handlers and the resets at the awaited publications,
    -- whatever messages arrive and wherever a handler dies of an exception: no symbol has two open
    -- positions, at most the configured maximum are open, and for each symbol the trades published as
    -- executed are those published as closed, plus one exactly if it has an open position.
    pub interleaved-IsOrderly :
        (y : System F) → Reach cfg json_entry resettable y → IsOrderly cap (view y.engine)
    interleaved-IsOrderly y r = (Reach-IsSafe r).orderly
