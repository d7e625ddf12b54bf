-- ===== src/PaperTrade/Engine/Tasks/Segments.antt =====
-- What each segment of the tasks of papertrade/engine.py does to the positions and to the ledger.
use aicrypto_trader.Base.{
  ℕ, sym, String, Option, none, some, ◌≡◌, refl, arith, ap, Option-cases, inl, inr, length,
  str_eq_refl, if_intro, ◌<◌,
}
use aicrypto_trader.Dict.{get, get-pop}
use aicrypto_trader.Float.{Float}
use aicrypto_trader.Config.{Settings}
use aicrypto_trader.Bus.Messages.{
  Signal, MarkPrice, ExitReason, close_reason_of, VetoReason, BreakerName, breaker_tripped,
  daily_loss_or_drawdown, side_eq,
}
use aicrypto_trader.Risk.Guards.{GuardResult, allowed, refused, check}
use aicrypto_trader.Risk.Guards.Accepted.{check-IsWithinLimits}
use aicrypto_trader.PaperTrade.Result.{Result-cases}
use aicrypto_trader.PaperTrade.Math.{calc_exit_fee}
use aicrypto_trader.PaperTrade.Account.{OpenPosition, equity}
use aicrypto_trader.PaperTrade.Engine.{
  Engine, announce_closure, publish_position_update, is_tripped,
}
use aicrypto_trader.PaperTrade.Account.Cash.{get-close}
use aicrypto_trader.PaperTrade.Engine.Ledger.{view, entries}
use aicrypto_trader.PaperTrade.Engine.Invariant.{IsOrderly, closes-IsOrderly, opens-IsOrderly}
use aicrypto_trader.PaperTrade.Engine.Refines.{publish_position_update-view, new_position_fields}
use aicrypto_trader.PaperTrade.Engine.Signals.{new_position, entry_price_of, publish_veto, mark_or}
use aicrypto_trader.PaperTrade.Engine.Marks.{exit_of}
use aicrypto_trader.PaperTrade.Engine.Tasks.{
  Task, idle, dead, after_closed, after_tripped, after_update, after_executed, last_publish,
  Segment, close_segment, announce_segment, count_segment, fill_segment, check_segment,
  guard_segment, start_signal, mark_segment,
}

module _ {F : Type 0} where
  -- The signal with which a flip goes on.
  abbrev pub next_of : Task F → Option (Signal F)
  next_of idle = none
  next_of dead = none
  next_of (after_closed p s x r net next) = next
  next_of (after_tripped p s x r next) = next
  next_of (after_update next) = next
  next_of (after_executed s) = none
  next_of last_publish = none

some_inj : {A : Type 0} {a b : A} → some a ≡ some b → a ≡ b
some_inj h = cc h

module _ {F : Type 0} ⦃fl : Float F⦄ (cfg : Settings F) where
  abbrev cap : ℕ
  cap = cfg.risk.max_concurrent_positions

  -- A symbol without a position still has none.
  abbrev pub OnlyLoses : Engine F → Engine F → Type 0
  OnlyLoses e f =
      (k : String) → get e.account.open_positions k ≡ none → get f.account.open_positions k ≡ none

  -- The books are kept, no symbol gains a position, and the task goes on with no other signal.
  pub record IsKept (next : Option (Signal F)) (e : Engine F) (r : Segment F) : Type 0 where
    pub orderly : IsOrderly cap (view e) → IsOrderly cap (view r.1)
    pub loses : OnlyLoses e r.1
    pub next_kept : (s : Signal F) → next_of r.0 ≡ some s → next ≡ some s

  pub same_books :
      (next : Option (Signal F)) (e : Engine F) (r : Segment F)
      → r.1.account ≡ e.account
      → entries r.1.published ≡ entries e.published
      → ((s : Signal F) → next_of r.0 ≡ some s → next ≡ some s)
      → IsKept next e r
  same_books next e r a l n = record {
    orderly = λ o. record {
      unique = rw a (o.unique);
      capped = rw a (o.capped);
      unfunded = rw a (o.unfunded);
      alternates = rw (a, l) (o.alternates);
    };
    loses = λ k h. rw a h;
    next_kept = n;
  }

  pub announce_segment-IsKept :
      (p : OpenPosition F) (s : String) (x : F) (r : ExitReason) (next : Option (Signal F))
      (e : Engine F)
      → IsKept next e (announce_segment p s x r next e)
  unfolding announce_segment announce_closure close_reason_of
  announce_segment-IsKept p s x r next e =
      same_books next e (announce_segment p s x r next e) (ground arith) (ground arith)
        (λ t h. ground arith)

  pub count_segment-IsKept :
      (p : OpenPosition F) (s : String) (x : F) (r : ExitReason) (net : F)
      (next : Option (Signal F)) (e : Engine F)
      → IsKept next e (count_segment cfg p s x r net next e)
  unfolding count_segment announce_segment announce_closure close_reason_of
  count_segment-IsKept p s x r net next e =
      same_books next e (count_segment cfg p s x r net next e) (ground arith) (ground arith)
        (λ t h. ground arith)

  close_segment-IsKept :
      (s : String) (x : F) (r : ExitReason) (next : Option (Signal F)) (e : Engine F)
      → IsKept next e (close_segment cfg s x r next e)
        × (get (close_segment cfg s x r next e).1.account.open_positions s ≡ none)
  unfolding close_segment
  close_segment-IsKept s x r next e = elim (Option-cases (get e.account.open_positions s)) [
    | inl h ↦ rw (h, close_segment) (same_books next e (dead, e) refl refl (λ t h. ground arith), h)
    | inr (p, h) ↦
        let fee = calc_exit_fee p.qty x cfg.fees.taker_rate in
        rw (h, get-close e.account s x fee h, close_segment)
          (
            record {
              orderly = closes-IsOrderly cap (view e) s p _ _ _ _ h refl;
              loses = λ k g. ground (arith, g, get-pop e.account.open_positions s k);
              next_kept = λ t g. g;
            },
            simp (get-pop, str_eq_refl),
          )
  ]

  -- A signal whose symbol has no position.
  abbrev pub IsFree : Signal F → Engine F → Type 0
  IsFree s e = get e.account.open_positions s.symbol ≡ none

  abbrev pub IsFreeNext : Segment F → Type 0
  IsFreeNext r = (s : Signal F) → next_of r.0 ≡ some s → IsFree s r.1

  fill_segment-IsOrderly :
      (json_entry : String → Option F) (now : F) (s : Signal F) (e : Engine F)
      → IsFree s e
      → length e.account.open_positions < cap
      → IsOrderly cap (view e)
      → IsOrderly cap (view (fill_segment cfg json_entry now s e).1)
        × (next_of (fill_segment cfg json_entry now s e).0 ≡ none)
  unfolding fill_segment
  fill_segment-IsOrderly json_entry now s e free room o =
      let price = entry_price_of json_entry e.last_marks s in
      elim (Result-cases (new_position cfg now s price)) [
        | inr (x, h) ↦ rw (h, fill_segment) (o, refl)
        | inl (p, h) ↦
            let fields = new_position_fields cfg now price s h in
            rw (h, fill_segment)
              (
                rw (sym fields.0)
                    (opens-IsOrderly cap (view e) p (rw fields.0 free) room fields.1 o),
                refl,
              )
      ]

  vetoed :
      (s : Signal F) (reason : VetoReason F) (name : BreakerName) (e : Engine F)
      → IsOrderly cap (view e)
      → IsOrderly cap (view (publish_veto s reason name e))
  vetoed s reason name e o = record {
    unique = o.unique;
    capped = o.capped;
    unfunded = o.unfunded;
    alternates = o.alternates;
  }

  guard_segment-IsOrderly :
      (json_entry : String → Option F) (now : F) (s : Signal F) (e : Engine F)
      → IsFree s e
      → IsOrderly cap (view e)
      → IsOrderly cap (view (guard_segment cfg json_entry now s e).1)
        × (next_of (guard_segment cfg json_entry now s e).0 ≡ none)
  unfolding guard_segment
  guard_segment-IsOrderly json_entry now s e free o =
      go (check cfg (length e.account.open_positions) (equity e.account) s) refl
    where
      go :
          (g : GuardResult F)
          → check cfg (length e.account.open_positions) (equity e.account) s ≡ g
          → IsOrderly cap (view (guard_segment cfg json_entry now s e).1)
            × (next_of (guard_segment cfg json_entry now s e).0 ≡ none)
      go allowed h =
          let within = (check-IsWithinLimits cfg _ _ s).0 h in
          rw (h, guard_segment) (fill_segment-IsOrderly json_entry now s e free within.room o)
      go (refused reason name) h = rw (h, guard_segment) (vetoed s reason name e o, refl)

  pub check_segment-IsOrderly :
      (json_entry : String → Option F) (now : F) (s : Signal F) (e : Engine F)
      → IsFree s e
      → IsOrderly cap (view e)
      → IsOrderly cap (view (check_segment cfg json_entry now s e).1)
        × (next_of (check_segment cfg json_entry now s e).0 ≡ none)
  unfolding check_segment
  check_segment-IsOrderly json_entry now s e free o =
      if_intro (λ (r : Segment F). IsOrderly cap (view r.1) × (next_of r.0 ≡ none)) (is_tripped e) _
        _ (λ _. (vetoed s breaker_tripped daily_loss_or_drawdown e o, refl))
        (λ _. guard_segment-IsOrderly json_entry now s e free o)

  -- A signal starts: the books are kept, and if a flip goes on with it, its symbol is free.
  pub start_signal-IsOrderly :
      (json_entry : String → Option F) (now : F) (s : Signal F) (e : Engine F)
      → IsOrderly cap (view e)
      → IsOrderly cap (view (start_signal cfg json_entry now s e).1)
        × IsFreeNext (start_signal cfg json_entry now s e)
  unfolding start_signal
  start_signal-IsOrderly json_entry now s e o =
      elim (Option-cases (get e.account.open_positions s.symbol)) [
        | inl h ↦
            let kept = check_segment-IsOrderly json_entry now s e h o in
            rw (h, start_signal) (kept.0, λ t g. ground arith)
        | inr (old, h) ↦
            let price = mark_or (get e.last_marks s.symbol) old.entry_price in
            let closing =
              close_segment-IsKept s.symbol price ExitReason.direction_flip (some s) e in
            rw (h, start_signal)
              (if_intro (λ (r : Segment F). IsOrderly cap (view r.1) × IsFreeNext r)
                (side_eq old.side s.side) _ _ (λ _. (o, λ t g. ground arith))
                (λ _. (
                  closing.0.orderly o,
                  λ t g. rw (sym (some_inj (closing.0.next_kept t g))) closing.1,
                )))
      ]

  pub mark_segment-IsKept :
      (now : F) (m : MarkPrice F) (p : OpenPosition F) (e : Engine F)
      → IsKept none e (mark_segment cfg now m p e)
  unfolding mark_segment
  mark_segment-IsKept now m p e = elim (Option-cases (exit_of now m.mark_price p)) [
    | inl h ↦
        rw (h, mark_segment)
          (same_books none e (last_publish, publish_position_update m.symbol e)
            (ap (λ v. v.account) (publish_position_update-view m.symbol e))
            (ap (λ v. v.ledger) (publish_position_update-view m.symbol e)) (λ t g. g))
    | inr ((r, x), h) ↦ rw (h, mark_segment) ((close_segment-IsKept m.symbol x r none e).0)
  ]
