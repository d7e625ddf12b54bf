-- ===== src/PaperTrade/Engine/Tasks/Lag.antt =====
-- The sum of the daily loss breaker in every order of the tasks of papertrade/engine.py.
use aicrypto_trader.Base.{
  ◌+◌, String, Option, none, some, false, ◌≡◌, refl, arith, ap, Option-cases, if_intro, inl, inr,
}
use aicrypto_trader.Dict.{get}
use aicrypto_trader.Float.{Float, IsExact, ◌⊕◌, nought}
use aicrypto_trader.Config.{Settings}
use aicrypto_trader.Bus.Messages.{Signal, MarkPrice, ExitReason, close_reason_of, side_eq}
use aicrypto_trader.Risk.Breakers.{update_pnl}
use aicrypto_trader.PaperTrade.Math.{calc_exit_fee}
use aicrypto_trader.PaperTrade.Account.{OpenPosition, close}
use aicrypto_trader.PaperTrade.Engine.{Engine, announce_closure, publish_position_update}
use aicrypto_trader.PaperTrade.Engine.Ledger.{entries}
use aicrypto_trader.PaperTrade.Engine.Refines.{publish_position_update-view}
use aicrypto_trader.PaperTrade.Engine.Invariant.{realized}
use aicrypto_trader.PaperTrade.Engine.Signals.{mark_or}
use aicrypto_trader.PaperTrade.Engine.Marks.{exit_of, note_mark}
use aicrypto_trader.PaperTrade.Engine.Tasks.{
  Task, idle, dead, after_closed, after_tripped, after_update, after_executed, last_publish,
  Segment, close_segment, announce_segment, count_segment, fill_segment, guard_segment,
  check_segment, start_signal, mark_segment, start_mark, resume,
}
use aicrypto_trader.PaperTrade.Engine.Tasks.System.{
  System, Turn, signal_arrives, mark_arrives, signals_resume, marks_resume, resets, Reach, start,
  later,
}

module _ {F : Type 0} ⦃fl : Float F⦄ where
  -- The profit of a closure that was published and is not counted yet.
  abbrev pub uncounted : Task F → F
  uncounted idle = nought
  uncounted dead = nought
  uncounted (after_closed p s x r net next) = net
  uncounted (after_tripped p s x r next) = nought
  uncounted (after_update next) = nought
  uncounted (after_executed s) = nought
  uncounted last_publish = nought

  abbrev booked : Engine F → F
  booked e = realized (entries e.published)

  abbrev counted : Engine F → F
  counted e = e.daily_loss.cumulative_pnl

  module _ (cfg : Settings F) (json_entry : String → Option F) (ex : IsExact F) where
    -- A segment of a task changes what is counted and uncounted together as it changes what is
    -- booked.
    abbrev IsEven : Task F → Engine F → Segment F → Type 0
    IsEven t e r =
        ex.credit (counted r.1)
          + ex.credit (uncounted r.0)
          + ex.debit (booked r.1)
          + (ex.debit (counted e) + ex.debit (uncounted t) + ex.credit (booked e))
        ≡ ex.debit (counted r.1)
          + ex.debit (uncounted r.0)
          + ex.credit (booked r.1)
          + (ex.credit (counted e) + ex.credit (uncounted t) + ex.debit (booked e))

    same_sums :
        (t : Task F) (e : Engine F) (r : Segment F)
        → counted r.1 ≡ counted e
        → booked r.1 ≡ booked e
        → uncounted r.0 ≡ nought
        → uncounted t ≡ nought
        → IsEven t e r
    same_sums t e r c b u v = rw (c, b, u, v) (omega (arith, ex.zero_parts))

    close_segment-IsEven :
        (t : Task F) (s : String) (x : F) (r : ExitReason) (next : Option (Signal F)) (e : Engine F)
        → uncounted t ≡ nought
        → IsEven t e (close_segment cfg s x r next e)
    unfolding close_segment
    close_segment-IsEven t s x r next e v = elim (Option-cases (get e.account.open_positions s)) [
      | inl h ↦ rw (h, close_segment) (same_sums t e (dead, e) refl refl refl v)
      | inr (p, h) ↦
          let fee = calc_exit_fee p.qty x cfg.fees.taker_rate in
          elim (Option-cases (close e.account s x fee)) [
            | inl g ↦ rw (h, g, close_segment) (same_sums t e (dead, e) refl refl refl v)
            | inr ((net, a), g) ↦
                rw (h, g, v, close_segment)
                  (omega (arith, ex.zero_parts, ex.add_parts (booked e) net))
          ]
    ]

    announce_segment-sums :
        (p : OpenPosition F) (s : String) (x : F) (r : ExitReason) (next : Option (Signal F))
        (e : Engine F)
        → let seg = announce_segment p s x r next e in
          (counted seg.1 ≡ counted e) × (booked seg.1 ≡ booked e) × (uncounted seg.0 ≡ nought)
    unfolding announce_segment announce_closure close_reason_of
    announce_segment-sums p s x r next e = (ground arith, ground arith, ground arith)

    count_segment-IsEven :
        (p : OpenPosition F) (s : String) (x : F) (r : ExitReason) (net : F)
        (next : Option (Signal F)) (e : Engine F)
        → IsEven (after_closed p s x r net next) e (count_segment cfg p s x r net next e)
    unfolding count_segment announce_segment announce_closure close_reason_of update_pnl
    count_segment-IsEven p s x r net next e =
        let sums : let seg = count_segment cfg p s x r net next e in
            (counted seg.1 ≡ counted e ⊕ net)
            × (booked seg.1 ≡ booked e)
            × (uncounted seg.0 ≡ nought) =
          (ground arith, ground arith, ground arith) in
        rw (sums.0, sums.1, sums.2) (omega (arith, ex.zero_parts, ex.add_parts (counted e) net))

    check_segment-sums :
        (now : F) (s : Signal F) (e : Engine F)
        → let seg = check_segment cfg json_entry now s e in
          (counted seg.1 ≡ counted e) × (booked seg.1 ≡ booked e) × (uncounted seg.0 ≡ nought)
    unfolding check_segment guard_segment fill_segment
    check_segment-sums now s e = (ground arith, ground arith, ground arith)

    check_segment-IsEven :
        (t : Task F) (now : F) (s : Signal F) (e : Engine F)
        → uncounted t ≡ nought
        → IsEven t e (check_segment cfg json_entry now s e)
    check_segment-IsEven t now s e v =
        let sums = check_segment-sums now s e in
        same_sums t e (check_segment cfg json_entry now s e) sums.0 sums.1 sums.2 v

    start_signal-IsEven :
        (now : F) (s : Signal F) (e : Engine F)
        → IsEven idle e (start_signal cfg json_entry now s e)
    unfolding start_signal
    start_signal-IsEven now s e = elim (Option-cases (get e.account.open_positions s.symbol)) [
      | inl h ↦ rw (h, start_signal) (check_segment-IsEven idle now s e refl)
      | inr (old, h) ↦
          let price = mark_or (get e.last_marks s.symbol) old.entry_price in
          rw (h, start_signal)
            (if_intro (IsEven idle e) (side_eq old.side s.side) _ _
              (λ _. same_sums idle e (idle, e) refl refl refl refl)
              (λ _.
                close_segment-IsEven idle s.symbol price ExitReason.direction_flip (some s) e refl))
    ]

    mark_segment-IsEven :
        (now : F) (m : MarkPrice F) (p : OpenPosition F) (e : Engine F)
        → IsEven idle e (mark_segment cfg now m p e)
    unfolding mark_segment
    mark_segment-IsEven now m p e = elim (Option-cases (exit_of now m.mark_price p)) [
      | inl h ↦
          let same = publish_position_update-view m.symbol e in
          rw (h, mark_segment)
            (same_sums idle e (last_publish, publish_position_update m.symbol e)
              (ap (λ v. v.pnl) same) (ap (λ v. realized v.ledger) same) refl refl)
      | inr ((r, x), h) ↦ rw (h, mark_segment) (close_segment-IsEven idle m.symbol x r none e refl)
    ]

    start_mark-IsEven :
        (now : F) (m : MarkPrice F) (e : Engine F) → IsEven idle e (start_mark cfg now m e)
    unfolding start_mark
    start_mark-IsEven now m e = elim (Option-cases (get e.account.open_positions m.symbol)) [
      | inl h ↦ rw (h, start_mark) (same_sums idle e (idle, note_mark m e) refl refl refl refl)
      | inr (p, h) ↦
          rw (h, start_mark) (mark_segment-IsEven now m (record p { mark_price = m.mark_price }) _)
    ]

    resume-IsEven :
        (now : F) (t : Task F) (e : Engine F) → IsEven t e (resume cfg json_entry now t e)
    unfolding resume
    resume-IsEven now idle e = same_sums idle e (idle, e) refl refl refl refl
    resume-IsEven now dead e = same_sums dead e (dead, e) refl refl refl refl
    resume-IsEven now (after_closed p s x r net next) e = count_segment-IsEven p s x r net next e
    resume-IsEven now (after_tripped p s x r next) e =
        let sums = announce_segment-sums p s x r next e in
        same_sums (after_tripped p s x r next) e (announce_segment p s x r next e) sums.0 sums.1
          sums.2 refl
    resume-IsEven now (after_update none) e =
        same_sums (after_update none) e (idle, e) refl refl refl refl
    resume-IsEven now (after_update (some s)) e =
        check_segment-IsEven (after_update (some s)) now s e refl
    resume-IsEven now (after_executed s) e =
        let same = publish_position_update-view s e in
        same_sums (after_executed s) e (last_publish, publish_position_update s e)
          (ap (λ v. v.pnl) same) (ap (λ v. realized v.ledger) same) refl refl
    resume-IsEven now last_publish e = same_sums last_publish e (idle, e) refl refl refl refl

    -- What is counted and uncounted is what is booked, in credit and debit.
    abbrev IsLevel : System F → Type 0
    IsLevel y =
        ex.credit (counted y.engine)
          + ex.credit (uncounted y.signals)
          + ex.credit (uncounted y.marks)
          + ex.debit (booked y.engine)
        ≡ ex.debit (counted y.engine)
          + ex.debit (uncounted y.signals)
          + ex.debit (uncounted y.marks)
          + ex.credit (booked y.engine)

    Turn-IsLevel : {y z : System F} → Turn cfg json_entry false y z → IsLevel y → IsLevel z
    Turn-IsLevel {y} (signal_arrives now s h) i = omega (
      arith,
      start_signal-IsEven now s y.engine,
      ap (λ t. ex.credit (uncounted t)) h,
      ap (λ t. ex.debit (uncounted t)) h,
      i,
    )
    Turn-IsLevel {y} (mark_arrives now m h) i = omega (
      arith,
      start_mark-IsEven now m y.engine,
      ap (λ t. ex.credit (uncounted t)) h,
      ap (λ t. ex.debit (uncounted t)) h,
      i,
    )
    Turn-IsLevel {y} (signals_resume now) i = omega (arith, resume-IsEven now y.signals y.engine, i)
    Turn-IsLevel {y} (marks_resume now) i = omega (arith, resume-IsEven now y.marks y.engine, i)
    Turn-IsLevel {y} (resets allowed) i = absurd (cc allowed)

    Reach-IsLevel : {y : System F} → Reach cfg json_entry false y → IsLevel y
    Reach-IsLevel start = omega (arith, ex.zero_parts)
    Reach-IsLevel (later r turn) = Turn-IsLevel turn (Reach-IsLevel r)

    -- On exact amounts, and while nobody resets the breakers: however the event loop interleaves the
    -- two handlers, the profits of all published closures are the sum by which the daily loss breaker
    -- judges, plus the profits of the at most two closures whose handlers are suspended in the
    -- publication of `trade.closed`. The breaker lags behind by exactly these.
    pub interleaved_daily_sum :
        (y : System F)
        → Reach cfg json_entry false y
        → counted y.engine ⊕ uncounted y.signals ⊕ uncounted y.marks ≡ booked y.engine
    interleaved_daily_sum y r =
        let level = Reach-IsLevel r in
        let inner = counted y.engine ⊕ uncounted y.signals in
        ex.eq_of_parts (inner ⊕ uncounted y.marks) (booked y.engine) (
          omega (
            arith,
            level,
            ex.add_parts (counted y.engine) (uncounted y.signals),
            ex.add_parts inner (uncounted y.marks),
          ))
