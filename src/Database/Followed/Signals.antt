-- ===== src/Database/Followed/Signals.antt =====
-- The trades in the database after a signal whose correlation id no row has.
use aicrypto_trader.Base.{
  ℕ, String, ◌≡◌, refl, ap, subst, inl, inr, Option, none, Bool, true, false, List, [], ◌∷◌, All,
  arith, str_eq, if_intro, Option-cases, Bool-cases, length,
}
use aicrypto_trader.Dict.{get}
use aicrypto_trader.Float.{Float}
use aicrypto_trader.Config.{Settings}
use aicrypto_trader.Bus.Messages.{TradeExecuted, Publication, Signal, side_eq}
use aicrypto_trader.Risk.Guards.{GuardResult, allowed, refused, check}
use aicrypto_trader.PaperTrade.Result.{Result, ok, err}
use aicrypto_trader.PaperTrade.Account.{OpenPosition, equity, open_position}
use aicrypto_trader.PaperTrade.Engine.{Engine, done, raised, Step, and_then, is_tripped}
use aicrypto_trader.PaperTrade.Engine.Signals.{
  entry_price_of, new_position, execute_fill, book_fill, fill, pass_guards, pass_breakers, flip,
  process_signal,
}
use aicrypto_trader.Storage.{
  OpenRow, CloseRow, Write, insert_trade_open, update_trade_close, open_row, consume, attempt,
  writes_of,
}
use aicrypto_trader.Database.{Trade, Tables, has_trade, insert_open}
use aicrypto_trader.Database.Followed.{position_row, trades_of, IsRecorded}
use aicrypto_trader.PaperTrade.Engine.Refines.{close_position-gone}
use aicrypto_trader.Database.Followed.Handlers.{
  publish_position_update-Recorded, stored-executed, close_position-Recorded,
}
use aicrypto_trader.PaperTrade.Engine.Ledger.{entries}
use aicrypto_trader.Database.Followed.Booked.{insert_open-IsBooked}
use aicrypto_trader.Database.Followed.Statements.{insert_open-Follows, has_trade-append}

module _ {F : Type 0} ⦃fl : Float F⦄ (stamp : Write F → ℕ) (succeeds : Write F → Bool)
    (start : Tables F) (opens : (r : OpenRow F) → succeeds (insert_trade_open r) ≡ true)
    (closes : (r : CloseRow F) → succeeds (update_trade_close r) ≡ true) where
  abbrev stored : List (Publication F) → List (Trade F)
  stored = trades_of stamp succeeds start

  abbrev Recorded : List String → Engine F → Type 0
  Recorded = IsRecorded stamp succeeds start

  abbrev IsFresh : List (Trade F) → String → Type 0
  IsFresh ts id = has_trade id ts ≡ false

  -- What `execute_fill` publishes.
  abbrev executed : Signal F → OpenPosition F → TradeExecuted F
  executed s p = record {
    original_correlation_id = s.correlation_id;
    symbol = s.symbol;
    side = s.side;
    qty = p.qty;
    entry_price = p.entry_price;
    leverage = s.leverage;
    sl = s.sl;
    tp = s.tp;
    fees = p.fees;
  }

  IsFresh-insert_open :
      (at : ℕ) (r : OpenRow F) (ts : List (Trade F)) (later : List String)
      → has_trade r.correlation_id ts ≡ false
      → All (λ id. str_eq r.correlation_id id ≡ false) later
      → All (IsFresh ts) later
      → All (IsFresh (insert_open at r ts)) later
  unfolding insert_open
  IsFresh-insert_open at r ts [] new n h = tt
  IsFresh-insert_open at r ts (id ∷ later) new (n, ns) (h, hs) = (
    rw (new, insert_open) (has_trade-append id at r ts h n),
    IsFresh-insert_open at r ts later new ns hs,
  )

  module _ (cfg : Settings F) (json_entry : String → Option F) where
    new_position-row :
        (now price : F) (s : Signal F) (p : OpenPosition F)
        → new_position cfg now s price ≡ ok p
        → open_row (executed s p) ≡ position_row p
    unfolding new_position
    new_position-row now price s p h = ground arith

    book_fill-Recorded :
        (later : List String) (s : Signal F) (p : OpenPosition F) (e : Engine F)
        → open_row (executed s p) ≡ position_row p
        → get e.account.open_positions p.symbol ≡ none
        → All (λ id. str_eq s.correlation_id id ≡ false) later
        → Recorded (s.correlation_id ∷ later) e
        → Recorded later (book_fill s p e)
    unfolding book_fill open_position
    book_fill-Recorded later s p e same new apart all =
        let at = stamp (insert_trade_open (position_row p)) in
        let ts = stored e.published in
        let after = stored-executed stamp succeeds start opens closes (executed s p) e.published in
        let own : has_trade p.correlation_id ts ≡ false = ground (arith, same, all.fresh) in
        publish_position_update-Recorded stamp succeeds start opens closes later s.symbol
          (execute_fill s p e)
          (record {
            follows = rw (after, same) (insert_open-Follows at p ts _ new own all.follows);
            fresh =
                rw (after, same)
                  (IsFresh-insert_open at (position_row p) ts later own
                    (subst (λ (c : String). All (λ id. str_eq c id ≡ false) later)
                      (ap (λ (r : OpenRow F). r.correlation_id) same) apart)
                    all.fresh.1);
            booked = λ keyed.
                rw (after, same)
                  (insert_open-IsBooked start.trades ts e.account.open_positions
                    (entries e.published) at (position_row p) p.symbol p s.symbol new own
                    (all.booked keyed));
          })

    fill-Recorded :
        (later : List String) (now : F) (s : Signal F) (e : Engine F)
        → get e.account.open_positions s.symbol ≡ none
        → All (λ id. str_eq s.correlation_id id ≡ false) later
        → Recorded (s.correlation_id ∷ later) e
        → Recorded later (fill cfg json_entry now s e).1
    unfolding fill
    fill-Recorded later now s e new apart all = go (new_position cfg now s price) refl
      where
        price : F
        price = entry_price_of json_entry e.last_marks s

        go :
            (r : Result (OpenPosition F))
            → new_position cfg now s price ≡ r
            → Recorded later (fill cfg json_entry now s e).1
        go (ok p) h =
            let row = new_position-row now price s p h in
            let at_symbol : get e.account.open_positions p.symbol ≡ none =
              rw (← ap (λ (r : OpenRow F). r.symbol) row) new in
            rw (h, fill) (book_fill-Recorded later s p e row at_symbol apart all)
        go (err x) h =
            rw (h, fill)
              (record { follows = all.follows; fresh = all.fresh.1; booked = all.booked })

    pass_guards-Recorded :
        (later : List String) (now : F) (s : Signal F) (e : Engine F)
        → get e.account.open_positions s.symbol ≡ none
        → All (λ id. str_eq s.correlation_id id ≡ false) later
        → Recorded (s.correlation_id ∷ later) e
        → Recorded later (pass_guards cfg json_entry now s e).1
    unfolding pass_guards consume attempt writes_of
    pass_guards-Recorded later now s e new apart all =
        go (check cfg (length e.account.open_positions) (equity e.account) s) refl
      where
        go :
            (g : GuardResult F)
            → check cfg (length e.account.open_positions) (equity e.account) s ≡ g
            → Recorded later (pass_guards cfg json_entry now s e).1
        go allowed h = rw (h, pass_guards) (fill-Recorded later now s e new apart all)
        go (refused reason name) h =
            rw (h, pass_guards)
              (record { follows = all.follows; fresh = all.fresh.1; booked = all.booked })

    pass_breakers-Recorded :
        (later : List String) (now : F) (s : Signal F) (e : Engine F)
        → get e.account.open_positions s.symbol ≡ none
        → All (λ id. str_eq s.correlation_id id ≡ false) later
        → Recorded (s.correlation_id ∷ later) e
        → Recorded later (pass_breakers cfg json_entry now s e).1
    unfolding pass_breakers consume attempt writes_of
    pass_breakers-Recorded later now s e new apart all =
        if_intro (λ (r : Step F). Recorded later r.1) (is_tripped e) _ _
          (λ _. record { follows = all.follows; fresh = all.fresh.1; booked = all.booked })
          (λ _. pass_guards-Recorded later now s e new apart all)

    flip-Recorded :
        (later : List String) (now : F) (s : Signal F) (r : Step F)
        → get r.1.account.open_positions s.symbol ≡ none
        → All (λ id. str_eq s.correlation_id id ≡ false) later
        → Recorded (s.correlation_id ∷ later) r.1
        → Recorded later (and_then r (pass_breakers cfg json_entry now s)).1
    flip-Recorded later now s (done, e) new apart all =
        pass_breakers-Recorded later now s e new apart all
    flip-Recorded later now s (raised x, e) new apart all = record {
      follows = all.follows;
      fresh = all.fresh.1;
      booked = all.booked;
    }

    pub process_signal-Recorded :
        (later : List String) (now : F) (s : Signal F) (e : Engine F)
        → All (λ id. str_eq s.correlation_id id ≡ false) later
        → Recorded (s.correlation_id ∷ later) e
        → Recorded later (process_signal cfg json_entry now s e).1
    unfolding process_signal flip
    process_signal-Recorded later now s e apart all =
        elim (Option-cases (get e.account.open_positions s.symbol)) [
          | inl h ↦ rw (h, process_signal) (pass_breakers-Recorded later now s e h apart all)
          | inr (old, h) ↦ elim (Bool-cases (side_eq old.side s.side)) [
            | inl same ↦
                rw (h, process_signal)
                  (rw same
                    (record { follows = all.follows; fresh = all.fresh.1; booked = all.booked }))
            | inr opposite ↦
                rw (h, process_signal)
                  (rw opposite (
                    flip-Recorded later now s _ (close_position-gone cfg s.symbol _ _ e) apart (
                      close_position-Recorded stamp succeeds start opens closes
                        (s.correlation_id ∷ later) cfg s.symbol _ _ e old h all)))
          ]
        ]
