-- ===== src/Agents/Portfolio/Mirror/Handlers.antt =====
-- What the portfolio agent makes of the updates of each handler of the engine.
use aicrypto_trader.Base.{
  String, ◌≡◌, refl, inl, inr, Option, none, some, str_eq_refl, if_intro, Option-cases, Bool-cases,
  length,
}
use aicrypto_trader.Dict.{get, pop, get-put, get-pop, get-put_self}
use aicrypto_trader.Float.{Float}
use aicrypto_trader.Config.{Settings}
use aicrypto_trader.Bus.Messages.{ExitReason, Signal, MarkPrice, side_eq}
use aicrypto_trader.Risk.Guards.{GuardResult, allowed, refused, check}
use aicrypto_trader.PaperTrade.Result.{Result, ok, err}
use aicrypto_trader.PaperTrade.Math.{calc_exit_fee}
use aicrypto_trader.PaperTrade.Account.{OpenPosition, Account, equity, open_position, update_mark}
use aicrypto_trader.PaperTrade.Account.Cash.{get-close}
use aicrypto_trader.PaperTrade.Engine.{
  Engine, done, Step, is_tripped, book_closure, close_found, close_position,
}
use aicrypto_trader.PaperTrade.Engine.Signals.{
  entry_price_of, new_position, book_fill, fill, pass_guards, pass_breakers, flip, process_signal,
}
use aicrypto_trader.PaperTrade.Engine.Marks.{exit_of, mark_position, process_mark, note_mark}
use aicrypto_trader.PaperTrade.Engine.Refines.{new_position_fields, book_closure-account}
use aicrypto_trader.PaperTrade.Engine.Exits.{book_closure-entries}
use aicrypto_trader.PaperTrade.Engine.Handlers.{process_signal_flip_raises, get-update_mark}
use aicrypto_trader.Agents.Portfolio.Mirror.{
  IsMirrored, IsMirroredBut, publish-IsMirrored, announce-IsMirrored,
}

module _ {F : Type 0} ⦃fl : Float F⦄ where
  module _ (cfg : Settings F) where
    book-IsMirroredBut :
        (p : OpenPosition F) (s : String) (x : F) (r : ExitReason) (fee net : F) (b : F)
        (e : Engine F)
        → IsMirroredBut s e
        → let closed_account : Account F = record {
          balance = b;
          open_positions = pop e.account.open_positions s;
        } in
          IsMirroredBut s (book_closure cfg p s x r fee net (record e { account = closed_account }))
    book-IsMirroredBut p s x r fee net b e but k other =
        rw
          (
            (book_closure-entries cfg p s x r fee net _).1,
            book_closure-account cfg p s x r fee net _,
          )
          (simp get-pop (rw other (but k other)))

    book-gone :
        (p : OpenPosition F) (s : String) (x : F) (r : ExitReason) (fee net : F) (b : F)
        (e : Engine F)
        → let closed_account : Account F = record {
          balance = b;
          open_positions = pop e.account.open_positions s;
        } in
          get
            (book_closure cfg p s x r fee net
              (record e { account = closed_account })).account.open_positions
            s
          ≡ none
    book-gone p s x r fee net b e =
        rw (book_closure-account cfg p s x r fee net _) (simp (get-pop, str_eq_refl))

    close_position-IsMirrored :
        (s : String) (x : F) (r : ExitReason) (e : Engine F) (p : OpenPosition F)
        → get e.account.open_positions s ≡ some p
        → IsMirroredBut s e
        → (close_position cfg s x r e).0 ≡ done
        → IsMirrored (close_position cfg s x r e).1
    unfolding close_position close_found
    close_position-IsMirrored s x r e p h but finished =
        let fee = calc_exit_fee p.qty x cfg.fees.taker_rate in
        let found = get-close e.account s x fee h in
        rw (h, close_position)
          (rw (found, close_found)
            (announce-IsMirrored p s x r _ (book-gone p s x r fee _ _ e)
              (book-IsMirroredBut p s x r fee _ _ e but)
              (rw (found, close_found) at (rw (h, close_position) at finished))))

    mark_position-IsMirrored :
        (now : F) (m : MarkPrice F) (p : OpenPosition F) (e : Engine F)
        → get e.account.open_positions m.symbol ≡ some p
        → IsMirroredBut m.symbol e
        → (mark_position cfg now m p e).0 ≡ done
        → IsMirrored (mark_position cfg now m p e).1
    unfolding mark_position
    mark_position-IsMirrored now m p e h but finished =
        elim (Option-cases (exit_of now m.mark_price p)) [
          | inl stay ↦
              rw (stay, mark_position) (publish-IsMirrored m.symbol e (λ gone. cc (h, gone)) but)
          | inr ((r, x), leave) ↦
              rw (leave, mark_position)
                (close_position-IsMirrored m.symbol x r e p h but
                  (rw (leave, mark_position) at finished))
        ]

    update_mark-IsMirroredBut :
        (m : MarkPrice F) (e : Engine F)
        → IsMirrored e
        → IsMirroredBut m.symbol
            (record (note_mark m e) { account = update_mark e.account m.symbol m.mark_price })
    unfolding update_mark
    update_mark-IsMirroredBut m e all k other =
        elim (Option-cases (get e.account.open_positions m.symbol)) [
          | inl h ↦ rw (h, update_mark) (all k)
          | inr (p, h) ↦ rw (h, update_mark) (simp get-put (rw other (all k)))
        ]

    pub process_mark-IsMirrored :
        (now : F) (m : MarkPrice F) (e : Engine F)
        → IsMirrored e
        → (process_mark cfg now m e).0 ≡ done
        → IsMirrored (process_mark cfg now m e).1
    unfolding process_mark
    process_mark-IsMirrored now m e all finished =
        elim (Option-cases (get e.account.open_positions m.symbol)) [
          | inl h ↦ rw (h, process_mark) all
          | inr (p, h) ↦
              rw (h, process_mark)
                (mark_position-IsMirrored now m _ _
                  (get-update_mark cfg e.account m.symbol m.mark_price p h)
                  (update_mark-IsMirroredBut m e all) (rw (h, process_mark) at finished))
        ]

    book_fill-IsMirrored :
        (s : Signal F) (p : OpenPosition F) (e : Engine F)
        → p.symbol ≡ s.symbol
        → IsMirrored e
        → IsMirrored (book_fill s p e)
    unfolding book_fill open_position
    book_fill-IsMirrored s p e same all =
        publish-IsMirrored s.symbol _
          (rw (← same) (λ gone. cc (get-put_self e.account.open_positions p.symbol p, gone)))
          (λ k other. rw same (simp get-put (rw other (all k))))

    module _ (json_entry : String → Option F) where
      fill-IsMirrored :
          (now : F) (s : Signal F) (e : Engine F)
          → IsMirrored e
          → IsMirrored (fill cfg json_entry now s e).1
      unfolding fill
      fill-IsMirrored now s e all = go (new_position cfg now s price) refl
        where
          price : F
          price = entry_price_of json_entry e.last_marks s

          go :
              (r : Result (OpenPosition F))
              → new_position cfg now s price ≡ r
              → IsMirrored (fill cfg json_entry now s e).1
          go (ok p) h =
              rw (h, fill)
                (book_fill-IsMirrored s p e (new_position_fields cfg now price s h).0 all)
          go (err x) h = rw (h, fill) all

      pass_guards-IsMirrored :
          (now : F) (s : Signal F) (e : Engine F)
          → IsMirrored e
          → IsMirrored (pass_guards cfg json_entry now s e).1
      unfolding pass_guards
      pass_guards-IsMirrored now s e all =
          go (check cfg (length e.account.open_positions) (equity e.account) s) refl
        where
          go :
              (g : GuardResult F)
              → check cfg (length e.account.open_positions) (equity e.account) s ≡ g
              → IsMirrored (pass_guards cfg json_entry now s e).1
          go allowed h = rw (h, pass_guards) (fill-IsMirrored now s e all)
          go (refused reason name) h = rw (h, pass_guards) all

      pass_breakers-IsMirrored :
          (now : F) (s : Signal F) (e : Engine F)
          → IsMirrored e
          → IsMirrored (pass_breakers cfg json_entry now s e).1
      unfolding pass_breakers
      pass_breakers-IsMirrored now s e all =
          if_intro (λ (r : Step F). IsMirrored r.1) (is_tripped e) _ _ (λ _. all)
            (λ _. pass_guards-IsMirrored now s e all)

      pub process_signal-IsMirrored :
          (now : F) (s : Signal F) (e : Engine F)
          → IsMirrored e
          → (process_signal cfg json_entry now s e).0 ≡ done
          → IsMirrored (process_signal cfg json_entry now s e).1
      unfolding process_signal flip
      process_signal-IsMirrored now s e all finished =
          elim (Option-cases (get e.account.open_positions s.symbol)) [
            | inl h ↦ rw (h, process_signal) (pass_breakers-IsMirrored now s e all)
            | inr (old, h) ↦ elim (Bool-cases (side_eq old.side s.side)) [
              | inl same ↦ rw (h, process_signal) (rw same all)
              | inr opposite ↦ absurd (
                  cc (
                    finished,
                    (process_signal_flip_raises cfg json_entry now s e old h opposite).0,
                  ))
            ]
          ]
