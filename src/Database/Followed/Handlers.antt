-- ===== src/Database/Followed/Handlers.antt =====
-- The trades in the database after a mark price and after a closure.
use aicrypto_trader.Base.{
  ℕ, String, ◌≡◌, refl, ◌∙◌, inl, inr, some, Bool, true, false, List, [], ◌∷◌, All, arith, if_intro,
  Option-cases,
}
use aicrypto_trader.Dict.{get, pop}
use aicrypto_trader.Float.{Float}
use aicrypto_trader.Config.{Settings}
use aicrypto_trader.Bus.Messages.{
  TradeExecuted, TradeClosed, CircuitTripped, Publication, circuit_tripped, close_reason_of,
  trade_executed, trade_closed, ExitReason, MarkPrice,
}
use aicrypto_trader.PaperTrade.Math.{calc_exit_fee}
use aicrypto_trader.PaperTrade.Account.{OpenPosition, Account, update_mark}
use aicrypto_trader.PaperTrade.Account.Cash.{get-close}
use aicrypto_trader.PaperTrade.Engine.{
  Engine, count_closure, publish_closure, publish_trip, book_closure, announce_closure, close_found,
  close_position, publish_position_update,
}
use aicrypto_trader.PaperTrade.Engine.Marks.{exit_of, mark_position, process_mark, note_mark}
use aicrypto_trader.PaperTrade.Engine.Handlers.{get-update_mark}
use aicrypto_trader.Storage.{
  OpenRow, CloseRow, Write, insert_trade_open, update_trade_close, open_row, close_row, consume,
  attempt, writes_of,
}
use aicrypto_trader.Database.{Trade, Tables, has_trade, insert_open, update_close, perform}
use aicrypto_trader.PaperTrade.Engine.Ledger.{closed, entries}
use aicrypto_trader.Database.Orphans.Each.{IsKeyed}
use aicrypto_trader.Database.Followed.{Follows, trades_of, IsRecorded, IsBooked}
use aicrypto_trader.Database.Followed.Booked.{put-IsBooked, update_close-IsBooked}
use aicrypto_trader.Database.Followed.Statements.{
  update_close-Follows, put-Follows, has_trade-update_close,
}

module _ {F : Type 0} ⦃fl : Float F⦄ (stamp : Write F → ℕ) (succeeds : Write F → Bool)
    (start : Tables F) (opens : (r : OpenRow F) → succeeds (insert_trade_open r) ≡ true)
    (closes : (r : CloseRow F) → succeeds (update_trade_close r) ≡ true) where
  abbrev stored : List (Publication F) → List (Trade F)
  stored = trades_of stamp succeeds start

  abbrev Recorded : List String → Engine F → Type 0
  Recorded = IsRecorded stamp succeeds start

  pub stored-executed :
      (t : TradeExecuted F) (ps : List (Publication F))
      → stored (trade_executed t ∷ ps)
        ≡ insert_open (stamp (insert_trade_open (open_row t))) (open_row t) (stored ps)
  unfolding consume attempt writes_of perform
  stored-executed t ps = ground (arith, opens (open_row t))

  stored-closed :
      (t : TradeClosed F) (ps : List (Publication F))
      → stored (trade_closed t ∷ ps)
        ≡ update_close (stamp (update_trade_close (close_row t))) (close_row t) (stored ps)
  unfolding consume attempt writes_of perform
  stored-closed t ps = ground (arith, closes (close_row t))

  stored-trip :
      (c : CircuitTripped F) (ps : List (Publication F))
      → stored (circuit_tripped c ∷ ps) ≡ stored ps
  unfolding consume attempt writes_of perform
  stored-trip c ps = ground arith

  abbrev IsFresh : List (Trade F) → String → Type 0
  IsFresh ts id = has_trade id ts ≡ false

  IsFresh-update_close :
      (at : ℕ) (c : CloseRow F) (ts : List (Trade F)) (later : List String)
      → All (IsFresh ts) later
      → All (IsFresh (update_close at c ts)) later
  IsFresh-update_close at c ts [] h = tt
  IsFresh-update_close at c ts (id ∷ later) (h, hs) =
      (has_trade-update_close id at c ts ∙ h, IsFresh-update_close at c ts later hs)

  module _ (later : List String) where
    pub publish_position_update-Recorded :
        (s : String) (e : Engine F)
        → Recorded later e
        → Recorded later (publish_position_update s e)
    unfolding publish_position_update consume attempt writes_of
    publish_position_update-Recorded s e all =
        elim (Option-cases (get e.account.open_positions s)) [
          | inl h ↦ rw (h, publish_position_update) all
          | inr (p, h) ↦
              rw (h, publish_position_update)
                (record { follows = all.follows; fresh = all.fresh; booked = all.booked })
        ]

    announce_closure-Recorded :
        (p : OpenPosition F) (s : String) (x : F) (r : ExitReason) (e : Engine F)
        → Recorded later e
        → Recorded later (announce_closure p s x r e).1
    unfolding announce_closure consume attempt writes_of
    announce_closure-Recorded p s x r e all = elim (Option-cases (close_reason_of r)) [
      | inl h ↦ rw (h, announce_closure) all
      | inr (c, h) ↦
          rw (h, announce_closure)
            (record { follows = all.follows; fresh = all.fresh; booked = all.booked })
    ]

    module _ (cfg : Settings F) where
      book_closure-Recorded :
          (p : OpenPosition F) (s : String) (x : F) (r : ExitReason) (fee net b : F) (e : Engine F)
          → get e.account.open_positions s ≡ some p
          → Recorded later e
          → let closed_account : Account F = record {
            balance = b;
            open_positions = pop e.account.open_positions s;
          } in
            Recorded later
              (book_closure cfg p s x r fee net (record e { account = closed_account }))
      unfolding book_closure
      book_closure-Recorded p s x r fee net b e there all =
          let t : TradeClosed F = record {
            correlation_id = p.correlation_id;
            symbol = s;
            side = p.side;
            exit_price = x;
            exit_reason = r;
            realized_pnl = net;
            funding_paid = p.funding_paid;
            exit_fees = fee;
          } in
          let at = stamp (update_trade_close (close_row t)) in
          let ts = stored e.published in
          let follows : Follows (stored (trade_closed t ∷ e.published))
              (pop e.account.open_positions s) =
            rw (stored-closed t e.published) (
              update_close-Follows at (close_row t) s p ts e.account.open_positions there refl
                all.follows) in
          let fresh : All (IsFresh (stored (trade_closed t ∷ e.published))) later =
            rw (stored-closed t e.published)
              (IsFresh-update_close at (close_row t) ts later all.fresh) in
          let (row, here) = all.follows.recorded s p there in
          let booked : IsKeyed start.trades
              → IsBooked start.trades (stored (trade_closed t ∷ e.published))
                  (pop e.account.open_positions s) (closed s net ∷ entries e.published) =
            λ keyed. rw (stored-closed t e.published) (
              update_close-IsBooked start.trades ts e.account.open_positions (entries e.published)
                at (close_row t) s p _ there row (all.booked keyed)) in
          let counted : Engine F = count_closure net (
            publish_closure p s x r fee net (record e {
              account = record { balance = b; open_positions = pop e.account.open_positions s };
            })) in
          if_intro (Recorded later) counted.daily_loss.state.tripped (publish_trip cfg counted)
            counted
            (λ _. record {
              follows = rw (stored-trip _ (trade_closed t ∷ e.published)) follows;
              fresh = rw (stored-trip _ (trade_closed t ∷ e.published)) fresh;
              booked = rw (stored-trip _ (trade_closed t ∷ e.published)) booked;
            })
            (λ _. record { follows = follows; fresh = fresh; booked = booked })

      pub close_position-Recorded :
          (s : String) (x : F) (r : ExitReason) (e : Engine F) (p : OpenPosition F)
          → get e.account.open_positions s ≡ some p
          → Recorded later e
          → Recorded later (close_position cfg s x r e).1
      unfolding close_position close_found
      close_position-Recorded s x r e p h all =
          let fee = calc_exit_fee p.qty x cfg.fees.taker_rate in
          let found = get-close e.account s x fee h in
          rw (h, close_position)
            (rw (found, close_found)
              (announce_closure-Recorded p s x r _ (book_closure-Recorded p s x r fee _ _ e h all)))

      mark_position-Recorded :
          (now : F) (m : MarkPrice F) (p : OpenPosition F) (e : Engine F)
          → get e.account.open_positions m.symbol ≡ some p
          → Recorded later e
          → Recorded later (mark_position cfg now m p e).1
      unfolding mark_position
      mark_position-Recorded now m p e h all = elim (Option-cases (exit_of now m.mark_price p)) [
        | inl stay ↦ rw (stay, mark_position) (publish_position_update-Recorded m.symbol e all)
        | inr ((r, x), leave) ↦
            rw (leave, mark_position) (close_position-Recorded m.symbol x r e p h all)
      ]

      update_mark-Recorded :
          (m : MarkPrice F) (e : Engine F) (p : OpenPosition F)
          → get e.account.open_positions m.symbol ≡ some p
          → Recorded later e
          → Recorded later
              (record (note_mark m e) { account = update_mark e.account m.symbol m.mark_price })
      unfolding update_mark
      update_mark-Recorded m e p h all =
          rw (h, update_mark)
            (record {
              follows =
                  put-Follows m.symbol p (record p { mark_price = m.mark_price })
                    (stored e.published) e.account.open_positions h refl all.follows;
              fresh = all.fresh;
              booked = λ keyed.
                  put-IsBooked start.trades (stored e.published) e.account.open_positions
                    (entries e.published) m.symbol p (record p { mark_price = m.mark_price }) h
                    (all.booked keyed);
            })

      pub process_mark-Recorded :
          (now : F) (m : MarkPrice F) (e : Engine F)
          → Recorded later e
          → Recorded later (process_mark cfg now m e).1
      unfolding process_mark
      process_mark-Recorded now m e all =
          elim (Option-cases (get e.account.open_positions m.symbol)) [
            | inl h ↦
                rw (h, process_mark)
                  (record { follows = all.follows; fresh = all.fresh; booked = all.booked })
            | inr (p, h) ↦
                rw (h, process_mark)
                  (mark_position-Recorded now m _ _
                    (get-update_mark cfg e.account m.symbol m.mark_price p h)
                    (update_mark-Recorded m e p h all))
          ]
