-- ===== src/PaperTrade/Engine/Tasks/Whole.antt =====
-- A task that nothing interrupts is the handler.
use aicrypto_trader.Base.{
  ℕ, zero, suc, String, Option, none, some, ◌≡◌, refl, arith, Option-cases, Bool-cases, inl, inr,
}
use aicrypto_trader.Dict.{get}
use aicrypto_trader.Float.{Float}
use aicrypto_trader.Config.{Settings}
use aicrypto_trader.Bus.Messages.{Signal, MarkPrice, side_eq}
use aicrypto_trader.Bus.Messages.{ExitReason, close_reason_of}
use aicrypto_trader.PaperTrade.Math.{calc_exit_fee}
use aicrypto_trader.PaperTrade.Account.{OpenPosition, close}
use aicrypto_trader.PaperTrade.Engine.{
  Engine, publish_closure, done, raised, Step, and_then, announce_closure, close_position,
  close_found, book_closure,
}
use aicrypto_trader.PaperTrade.Engine.Signals.{
  process_signal, pass_breakers, pass_guards, fill, book_fill, flip, mark_or,
}
use aicrypto_trader.PaperTrade.Engine.Marks.{process_mark, mark_position, exit_of}
use aicrypto_trader.PaperTrade.Engine.Tasks.{
  idle, dead, Segment, close_segment, announce_segment, count_segment, fill_segment, check_segment,
  guard_segment, start_signal, mark_segment, start_mark, resume,
}

module _ {F : Type 0} ⦃fl : Float F⦄ where
  abbrev pub ended : Step F → Segment F
  ended (done, e) = (idle, e)
  ended (raised x, e) = (dead, e)

  module _ (cfg : Settings F) (json_entry : String → Option F) (now : F) where
    -- The task goes on `n` times with nothing in between.
    unfoldable pub resumes : ℕ → Segment F → Segment F
    resumes zero (t, e) = (t, e)
    resumes (suc n) (t, e) = resumes n (resume cfg json_entry now t e)

    check-pass_breakers :
        (s : Signal F) (e : Engine F)
        → resumes 3 (check_segment cfg json_entry now s e)
          ≡ ended (pass_breakers cfg json_entry now s e)
    unfolding resumes resume check_segment guard_segment fill_segment pass_breakers pass_guards fill
        book_fill
    check-pass_breakers s e = ground arith

    -- `_close_position` in the handler of the marks.
    count-book_closure :
        (p : OpenPosition F) (s : String) (x : F) (r : ExitReason) (fee net : F) (e : Engine F)
        → resumes 2 (count_segment cfg p s x r net none (publish_closure p s x r fee net e))
          ≡ ended (announce_closure p s x r (book_closure cfg p s x r fee net e))
    unfolding resumes resume count_segment announce_segment announce_closure book_closure
    count-book_closure p s x r fee net e = ground arith

    close-close_position :
        (s : String) (x : F) (r : ExitReason) (e : Engine F)
        → resumes 3 (close_segment cfg s x r none e) ≡ ended (close_position cfg s x r e)
    unfolding resumes resume close_segment close_position close_found
    close-close_position s x r e = elim (Option-cases (get e.account.open_positions s)) [
      | inl h ↦ rw (h, close_segment, close_position) refl
      | inr (p, h) ↦
          let fee = calc_exit_fee p.qty x cfg.fees.taker_rate in
          elim (Option-cases (close e.account s x fee)) [
            | inl g ↦ rw (h, g, close_segment, close_position, close_found) refl
            | inr ((net, a), g) ↦
                rw (h, g, close_segment, close_position, close_found)
                  (count-book_closure p s x r fee net (record e { account = a }))
          ]
    ]

    -- A flip raises at the last update, so that its signal goes no further.
    count-flip :
        (p : OpenPosition F) (s : Signal F) (x : F) (fee net : F) (e : Engine F)
        → resumes 2 (
            count_segment cfg p s.symbol x ExitReason.direction_flip net
              (some s)
              (publish_closure p s.symbol x ExitReason.direction_flip fee net e))
          ≡ ended (
              and_then
                (announce_closure p s.symbol x ExitReason.direction_flip
                  (book_closure cfg p s.symbol x ExitReason.direction_flip fee net e))
                (pass_breakers cfg json_entry now s))
    unfolding resumes resume count_segment announce_segment announce_closure book_closure
        close_reason_of
    count-flip p s x fee net e = ground arith

    close-flip :
        (s : Signal F) (x : F) (e : Engine F)
        → resumes 3 (close_segment cfg s.symbol x ExitReason.direction_flip (some s) e)
          ≡ ended (
              and_then
                (close_position cfg s.symbol x ExitReason.direction_flip e)
                (pass_breakers cfg json_entry now s))
    unfolding resumes resume close_segment close_position close_found
    close-flip s x e = elim (Option-cases (get e.account.open_positions s.symbol)) [
      | inl h ↦ rw (h, close_segment, close_position) refl
      | inr (p, h) ↦
          let fee = calc_exit_fee p.qty x cfg.fees.taker_rate in
          elim (Option-cases (close e.account s.symbol x fee)) [
            | inl g ↦ rw (h, g, close_segment, close_position, close_found) refl
            | inr ((net, a), g) ↦
                rw (h, g, close_segment, close_position, close_found)
                  (count-flip p s x fee net (record e { account = a }))
          ]
    ]

    signal-process_signal :
        (s : Signal F) (e : Engine F)
        → resumes 3 (start_signal cfg json_entry now s e)
          ≡ ended (process_signal cfg json_entry now s e)
    unfolding resumes resume start_signal process_signal flip
    signal-process_signal s e = elim (Option-cases (get e.account.open_positions s.symbol)) [
      | inl h ↦ rw (h, start_signal, process_signal) (check-pass_breakers s e)
      | inr (old, h) ↦
          let x = mark_or (get e.last_marks s.symbol) old.entry_price in
          elim (Bool-cases (side_eq old.side s.side)) [
            | inl g ↦ rw (h, g, start_signal, process_signal, flip) refl
            | inr g ↦ rw (h, g, start_signal, process_signal, flip) (close-flip s x e)
          ]
    ]

    mark-mark_position :
        (m : MarkPrice F) (p : OpenPosition F) (e : Engine F)
        → resumes 3 (mark_segment cfg now m p e) ≡ ended (mark_position cfg now m p e)
    unfolding resumes resume mark_segment mark_position
    mark-mark_position m p e = elim (Option-cases (exit_of now m.mark_price p)) [
      | inl h ↦ rw (h, mark_segment, mark_position) refl
      | inr ((r, x), h) ↦ rw (h, mark_segment, mark_position) (close-close_position m.symbol x r e)
    ]

    mark-process_mark :
        (m : MarkPrice F) (e : Engine F)
        → resumes 3 (start_mark cfg now m e) ≡ ended (process_mark cfg now m e)
    unfolding resumes resume start_mark process_mark
    mark-process_mark m e = elim (Option-cases (get e.account.open_positions m.symbol)) [
      | inl h ↦ rw (h, start_mark, process_mark) refl
      | inr (p, h) ↦
          rw (h, start_mark, process_mark)
            (mark-mark_position m (record p { mark_price = m.mark_price }) _)
    ]

    -- A task that is never interrupted is the handler, for every signal and mark price: from its start
    -- it is idle or dead after at most three turns, idle where the handler returns and dead where it
    -- raises, and leaves the engine that the handler leaves.
    pub tasks_are_handlers :
        (s : Signal F) (m : MarkPrice F) (e : Engine F)
        → (resumes 3 (start_signal cfg json_entry now s e)
            ≡ ended (process_signal cfg json_entry now s e))
          × (resumes 3 (start_mark cfg now m e) ≡ ended (process_mark cfg now m e))
    tasks_are_handlers s m e = (signal-process_signal s e, mark-process_mark m e)
