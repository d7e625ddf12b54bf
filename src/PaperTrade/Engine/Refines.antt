-- ===== src/PaperTrade/Engine/Refines.antt =====
-- Every handler of the engine is a chain of moves of the ledger.
use aicrypto_trader.Base.{
  ℕ, ◌<◌, String, ◌≡◌, refl, inl, inr, Option, none, some, true, false, ◌∷◌, length, arith,
  Option-cases, if_intro, str_eq_refl, ap,
}
use aicrypto_trader.Dict.{get, get-pop}
use aicrypto_trader.Float.{Float, ◌⊕◌, nought}
use aicrypto_trader.Config.{Settings}
use aicrypto_trader.Bus.Messages.{ExitReason, Signal, MarkPrice, close_reason_of, side_eq}
use aicrypto_trader.Risk.Breakers.{update_pnl, update_equity}
use aicrypto_trader.Risk.Guards.{check, allowed, refused, GuardResult}
use aicrypto_trader.Risk.Guards.Accepted.{check-IsWithinLimits}
use aicrypto_trader.PaperTrade.Result.{Result-cases, ok}
use aicrypto_trader.PaperTrade.Math.{calc_exit_fee}
use aicrypto_trader.PaperTrade.Account.{OpenPosition, open_position, equity}
use aicrypto_trader.PaperTrade.Account.Cash.{get-close}
use aicrypto_trader.PaperTrade.Engine.{
  Engine, done, raised, Step, and_then, is_tripped, publish_position_update, book_closure,
  announce_closure, close_found, close_position,
}
use aicrypto_trader.PaperTrade.Engine.Signals.{
  entry_price_of, new_position, book_fill, fill, pass_guards, pass_breakers, flip, mark_or,
  process_signal,
}
use aicrypto_trader.PaperTrade.Engine.Marks.{exit_of, mark_position, process_mark}
use aicrypto_trader.PaperTrade.Engine.Run.{Input, signal, mark, reset, handle}
use aicrypto_trader.PaperTrade.Engine.Ledger.{
  closed, opened, View, view, entries, closes, opens, marks, Moves, here, Moves-trans, Move-Moves,
}

module _ {F : Type 0} ⦃fl : Float F⦄ where
  pub publish_position_update-view :
      (s : String) (e : Engine F) → view (publish_position_update s e) ≡ view e
  unfolding publish_position_update
  publish_position_update-view s e = ground arith

  pub announce_closure-view :
      (p : OpenPosition F) (s : String) (x : F) (r : ExitReason) (e : Engine F)
      → view (announce_closure p s x r e).1 ≡ view e
  unfolding announce_closure close_reason_of
  announce_closure-view p s x r e = ground arith

  announce_closure-account :
      (p : OpenPosition F) (s : String) (x : F) (r : ExitReason) (e : Engine F)
      → (announce_closure p s x r e).1.account ≡ e.account
  announce_closure-account p s x r e = ap (λ v. v.account) (announce_closure-view p s x r e)

  pub book_closure-account :
      (cfg : Settings F) (p : OpenPosition F) (s : String) (x : F) (r : ExitReason) (fee net : F)
      (e : Engine F)
      → (book_closure cfg p s x r fee net e).account ≡ e.account
  unfolding book_closure
  book_closure-account cfg p s x r fee net e = ground arith

  book_closure-latched :
      (cfg : Settings F) (p : OpenPosition F) (s : String) (x : F) (r : ExitReason) (fee net : F)
      (e : Engine F)
      → is_tripped e ≡ true
      → is_tripped (book_closure cfg p s x r fee net e) ≡ true
  unfolding book_closure update_pnl update_equity
  book_closure-latched cfg p s x r fee net e h = ground arith

  book_closure-view :
      (cfg : Settings F) (p : OpenPosition F) (s : String) (x : F) (r : ExitReason) (fee net : F)
      (e : Engine F)
      → let e' = book_closure cfg p s x r fee net e in
        view e' ≡ record {
          account = e.account;
          ledger = closed s net ∷ entries e.published;
          tripped = is_tripped e';
          pnl = e.daily_loss.cumulative_pnl ⊕ net;
        }
  unfolding book_closure update_pnl
  book_closure-view cfg p s x r fee net e = ground arith

  module _ (cfg : Settings F) where
    abbrev cap : ℕ
    cap = cfg.risk.max_concurrent_positions

    close_found-Moves :
        (p : OpenPosition F) (s : String) (x : F) (r : ExitReason) (e : Engine F)
        → get e.account.open_positions s ≡ some p
        → Moves cap (view e) (view (close_found cfg p s x r e).1)
    unfolding close_found
    close_found-Moves p s x r e h =
        let fee = calc_exit_fee p.qty x cfg.fees.taker_rate in
        rw (get-close e.account s x fee h, close_found)
          (rw announce_closure-view (
            Move-Moves (
              closes s p x fee _ _ _ h (get-close e.account s x fee h)
                (book_closure-latched cfg p s x r fee _ _)
                (book_closure-view cfg p s x r fee _ _))))

    close_position-Moves :
        (s : String) (x : F) (r : ExitReason) (e : Engine F)
        → Moves cap (view e) (view (close_position cfg s x r e).1)
    unfolding close_position
    close_position-Moves s x r e = elim (Option-cases (get e.account.open_positions s)) [
      | inl h ↦ rw (h, close_position) here
      | inr (p, h) ↦ rw (h, close_position) (close_found-Moves p s x r e h)
    ]

    pub close_position-gone :
        (s : String) (x : F) (r : ExitReason) (e : Engine F)
        → get (close_position cfg s x r e).1.account.open_positions s ≡ none
    unfolding close_position close_found
    close_position-gone s x r e = elim (Option-cases (get e.account.open_positions s)) [
      | inl h ↦ rw (h, close_position) h
      | inr (p, h) ↦
          let fee = calc_exit_fee p.qty x cfg.fees.taker_rate in
          rw (h, close_position)
            (rw (get-close e.account s x fee h, close_found)
              (rw (announce_closure-account, book_closure-account) (simp (get-pop, str_eq_refl))))
    ]

    and_then-Moves :
        (v : View F) (r : Step F) (k : Engine F → Step F)
        → Moves cap v (view r.1)
        → Moves cap (view r.1) (view (k r.1).1)
        → Moves cap v (view (and_then r k).1)
    and_then-Moves v (done, e) k before after = Moves-trans before after
    and_then-Moves v (raised x, e) k before after = before

    pub new_position_fields :
        (now price : F) (s : Signal F) {p : OpenPosition F}
        → new_position cfg now s price ≡ ok p
        → (p.symbol ≡ s.symbol) × (p.funding_paid ≡ nought)
    unfolding new_position
    new_position_fields now price s h = ground arith

    pub book_fill-view :
        (s : Signal F) (p : OpenPosition F) (e : Engine F)
        → view (book_fill s p e) ≡ record {
          account = open_position e.account p;
          ledger = opened s.symbol ∷ entries e.published;
          tripped = is_tripped e;
          pnl = e.daily_loss.cumulative_pnl;
        }
    unfolding book_fill
    book_fill-view s p e = rw publish_position_update-view

    module _ (json_entry : String → Option F) where
      fill-Moves :
          (now : F) (s : Signal F) (e : Engine F)
          → get e.account.open_positions s.symbol ≡ none
          → length e.account.open_positions < cap
          → is_tripped e ≡ false
          → Moves cap (view e) (view (fill cfg json_entry now s e).1)
      unfolding fill
      fill-Moves now s e new room calm =
          let price = entry_price_of json_entry e.last_marks s in
          elim (Result-cases (new_position cfg now s price)) [
            | inr (x, h) ↦ rw (h, fill) here
            | inl (p, h) ↦
                let fields = new_position_fields now price s h in
                rw (h, fill)
                  (Move-Moves (
                    opens p (rw fields.0 new) room calm fields.1
                      (rw (book_fill-view s p e, fields.0))))
          ]

      pass_guards-Moves :
          (now : F) (s : Signal F) (e : Engine F)
          → get e.account.open_positions s.symbol ≡ none
          → is_tripped e ≡ false
          → Moves cap (view e) (view (pass_guards cfg json_entry now s e).1)
      unfolding pass_guards
      pass_guards-Moves now s e new calm =
          go (check cfg (length e.account.open_positions) (equity e.account) s) refl
        where
          go :
              (g : GuardResult F)
              → check cfg (length e.account.open_positions) (equity e.account) s ≡ g
              → Moves cap (view e) (view (pass_guards cfg json_entry now s e).1)
          go allowed h =
              let within = (check-IsWithinLimits cfg _ _ s).0 h in
              rw (h, pass_guards) (fill-Moves now s e new within.room calm)
          go (refused reason name) h = rw (h, pass_guards) here

      pass_breakers-Moves :
          (now : F) (s : Signal F) (e : Engine F)
          → get e.account.open_positions s.symbol ≡ none
          → Moves cap (view e) (view (pass_breakers cfg json_entry now s e).1)
      unfolding pass_breakers
      pass_breakers-Moves now s e new =
          if_intro (λ (r : Step F). Moves cap (view e) (view r.1)) (is_tripped e) _ _ (λ _. here)
            (pass_guards-Moves now s e new)

      flip-Moves :
          (now : F) (s : Signal F) (old : OpenPosition F) (e : Engine F)
          → Moves cap (view e) (view (flip cfg json_entry now s old e).1)
      unfolding flip
      flip-Moves now s old e =
          let price = mark_or (get e.last_marks s.symbol) old.entry_price in
          if_intro (λ (r : Step F). Moves cap (view e) (view r.1)) (side_eq old.side s.side) _ _
            (λ _. here)
            λ _.
              and_then-Moves (view e)
                (close_position cfg s.symbol price ExitReason.direction_flip e) _
                (close_position-Moves s.symbol price ExitReason.direction_flip e)
                (pass_breakers-Moves now s _
                  (close_position-gone s.symbol price ExitReason.direction_flip e))

      process_signal-Moves :
          (now : F) (s : Signal F) (e : Engine F)
          → Moves cap (view e) (view (process_signal cfg json_entry now s e).1)
      unfolding process_signal
      process_signal-Moves now s e = elim (Option-cases (get e.account.open_positions s.symbol)) [
        | inl h ↦ rw (h, process_signal) (pass_breakers-Moves now s e h)
        | inr (old, h) ↦ rw (h, process_signal) (flip-Moves now s old e)
      ]

    mark_position-Moves :
        (now : F) (m : MarkPrice F) (p : OpenPosition F) (e : Engine F)
        → Moves cap (view e) (view (mark_position cfg now m p e).1)
    unfolding mark_position
    mark_position-Moves now m p e = elim (Option-cases (exit_of now m.mark_price p)) [
      | inl h ↦ rw (h, mark_position) (rw publish_position_update-view here)
      | inr ((reason, price), h) ↦
          rw (h, mark_position) (close_position-Moves m.symbol price reason e)
    ]

    process_mark-Moves :
        (now : F) (m : MarkPrice F) (e : Engine F)
        → Moves cap (view e) (view (process_mark cfg now m e).1)
    unfolding process_mark
    process_mark-Moves now m e = elim (Option-cases (get e.account.open_positions m.symbol)) [
      | inl h ↦ rw (h, process_mark) here
      | inr (p, h) ↦
          rw (h, process_mark)
            (Moves-trans (Move-Moves (marks m.symbol m.mark_price refl))
              (mark_position-Moves now m _ _))
    ]

    -- The input is not the reset of the breakers.
    abbrev pub IsMarket : Input F → Type 0
    IsMarket (signal now s) = Unit
    IsMarket (mark now m) = Unit
    IsMarket reset = ⊥

    -- Every handler of the engine, whether it returns or raises, is a chain of moves of the ledger:
    -- it opens a position only under a symbol that has none, below the configured maximum and with no
    -- breaker tripped, publishes exactly one trade for each position that it opens or closes, adds
    -- the net profit of each closure to the daily sum, and never releases a breaker.
    pub handle-Moves :
        (json_entry : String → Option F) (i : Input F) (e : Engine F)
        → IsMarket i
        → Moves cfg.risk.max_concurrent_positions (view e) (view (handle cfg json_entry i e).1)
    unfolding handle
    handle-Moves json_entry (signal now s) e _ = process_signal-Moves json_entry now s e
    handle-Moves json_entry (mark now m) e _ = process_mark-Moves now m e
    handle-Moves json_entry reset e h = absurd h
