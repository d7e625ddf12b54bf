-- ===== src/Database/Followed/Runs.antt =====
-- The trades in the database after the start of a session, as in main.py, and a whole run of the
-- engine.
use aicrypto_trader.Base.{
  ℕ, String, ◌≡◌, refl, ap, length, inl, inr, arith, Bool-cases, Option, none, Bool, true, false,
  List, [], ◌∷◌, All, str_eq,
}
use aicrypto_trader.Dict.{Dict, get}
use aicrypto_trader.Float.{Float}
use aicrypto_trader.Config.{Settings}
use aicrypto_trader.PaperTrade.Engine.{Engine, done, raised, Step, and_then, new_engine}
use aicrypto_trader.PaperTrade.Engine.Run.{Input, signal, mark, reset, handle, run, reset_breakers}
use aicrypto_trader.Storage.{
  OpenRow, CloseRow, Write, insert_trade_open, update_trade_close, consume,
}
use aicrypto_trader.Database.{Trade, Tables, has_trade, is_open}
use aicrypto_trader.Database.Orphans.Keys.{all_fresh}
use aicrypto_trader.Database.Orphans.{
  open_rows, close_orphan_positions, close_orphan_positions-again,
}
use aicrypto_trader.Database.Followed.{
  Match, Follows-Match, find_open, trades_of, IsRecorded, IsBlank,
}
use aicrypto_trader.Database.Followed.Handlers.{process_mark-Recorded}
use aicrypto_trader.Database.Followed.Signals.{process_signal-Recorded}

module _ {F : Type 0} where
  -- The correlation ids of the signals, in their order.
  abbrev pub signal_ids : List (Input F) → List String
  signal_ids [] = []
  signal_ids (signal now s ∷ is) = s.correlation_id ∷ signal_ids is
  signal_ids (mark now m ∷ is) = signal_ids is
  signal_ids (reset ∷ is) = signal_ids is

abbrev pub AreDistinct : List String → Type 0
AreDistinct [] = Unit
AreDistinct (id ∷ ids) = All (λ other. str_eq id other ≡ false) ids × AreDistinct ids

module _ {F : Type 0} ⦃fl : Float F⦄ (stamp : Write F → ℕ) (succeeds : Write F → Bool)
    (start : Tables F) (opens : (r : OpenRow F) → succeeds (insert_trade_open r) ≡ true)
    (closes : (r : CloseRow F) → succeeds (update_trade_close r) ≡ true) (cfg : Settings F)
    (json_entry : String → Option F) where
  abbrev Recorded : List String → Engine F → Type 0
  Recorded = IsRecorded stamp succeeds start

  -- Which ids are left after an input.
  handle-Recorded :
      (i : Input F) (is : List (Input F)) (e : Engine F)
      → AreDistinct (signal_ids (i ∷ is))
      → Recorded (signal_ids (i ∷ is)) e
      → Recorded (signal_ids is) (handle cfg json_entry i e).1 × AreDistinct (signal_ids is)
  unfolding handle reset_breakers
  handle-Recorded (signal now s) is e (apart, rest) all = (
    process_signal-Recorded stamp succeeds start opens closes cfg json_entry (signal_ids is) now s e
        apart all,
    rest,
  )
  handle-Recorded (mark now m) is e rest all = (
    process_mark-Recorded stamp succeeds start opens closes (signal_ids is) cfg now m e all,
    rest,
  )
  handle-Recorded reset is e rest all =
      (record { follows = all.follows; fresh = all.fresh; booked = all.booked }, rest)

  pub run-Recorded :
      (is : List (Input F)) (e : Engine F)
      → AreDistinct (signal_ids is)
      → Recorded (signal_ids is) e
      → Recorded [] (run cfg json_entry is e).1
  unfolding run
  run-Recorded [] e distinct all = all
  run-Recorded (i ∷ is) e distinct all =
      go (handle cfg json_entry i e) (handle-Recorded i is e distinct all) (run-Recorded is)
    where
      go :
          (r : Step F)
          → Recorded (signal_ids is) r.1 × AreDistinct (signal_ids is)
          → ((e' : Engine F)
              → AreDistinct (signal_ids is)
              → Recorded (signal_ids is) e'
              → Recorded [] (run cfg json_entry is e').1)
          → Recorded [] (and_then r (run cfg json_entry is)).1
      go (done, e') (kept, rest) further = further e' rest kept
      go (raised x, e') (kept, rest) further = record {
        follows = kept.follows;
        fresh = tt;
        booked = kept.booked;
      }

module _ {F : Type 0} where
  find_open-closed :
      (id : String) (ts : List (Trade F)) → open_rows ts ≡ [] → find_open id ts ≡ none
  unfolding find_open open_rows
  find_open-closed id [] h = refl
  find_open-closed id (t ∷ ts) h = elim (Bool-cases (is_open t)) [
    | inl e ↦ absurd (cc (rw e at h))
    | inr e ↦ rw e (find_open-closed id ts (rw e at h))
  ]

module _ {F : Type 0} ⦃fl : Float F⦄ where
  IsBlank-closed : (ts : List (Trade F)) → open_rows ts ≡ [] → All IsBlank ts
  unfolding open_rows
  IsBlank-closed [] h = tt
  IsBlank-closed (t ∷ ts) h = elim (Bool-cases (is_open t)) [
    | inl e ↦ absurd (cc (rw e at h))
    | inr e ↦ ((λ o. absurd (cc (o, e))), IsBlank-closed ts (rw e at h))
  ]

  -- What the start of a session leaves of the tables.
  abbrev pub restarted : ℕ → Dict F → Tables F → Tables F
  restarted now prices d = record d { trades = (close_orphan_positions now prices d.trades).1 }

module _ {F : Type 0} ⦃fl : Float F⦄ (stamp : Write F → ℕ) (succeeds : Write F → Bool)
    (opens : (r : OpenRow F) → succeeds (insert_trade_open r) ≡ true)
    (closes : (r : CloseRow F) → succeeds (update_trade_close r) ≡ true) (cfg : Settings F)
    (json_entry : String → Option F) where
  pub started-Recorded :
      (now : ℕ) (prices : Dict F) (old : Tables F) (ids : List String)
      → All (λ id. has_trade id old.trades ≡ false) ids
      → IsRecorded stamp succeeds (restarted now prices old) ids (new_engine cfg)
  unfolding consume get
  started-Recorded now prices old ids unused =
      let none_open = (close_orphan_positions-again now now prices prices old.trades).0 in
      record {
        follows = record {
          recorded = λ s p h. absurd (cc h);
          held = λ id r h. absurd (cc (h, find_open-closed id _ none_open));
        };
        fresh = all_fresh now prices old.trades ids unused;
        booked = λ keyed. record {
          unique = tt;
          keyed = keyed;
          blank = IsBlank-closed _ none_open;
          counted = ap length none_open;
          summed = λ ex. omega (arith, ex.add_parts, ex.zero_parts, ex.eq_of_parts);
        };
      }

  -- Whatever earlier sessions left in the tables and whatever prices are known: when a session starts
  -- with closing the orphan positions, and a new engine then runs over signals whose correlation ids
  -- differ from each other and from those in the table, then, however the run ends, when the database
  -- takes every insertion and update of a trade and the storage subscriber has consumed all that was
  -- published, each open position has an open row in `trades` under its correlation id with its
  -- symbol, side, quantity, entry price, leverage, levels and entry fee, and each open row found
  -- under a correlation id is that of an open position.
  pub open_rows_follow_positions :
      (now : ℕ) (prices : Dict F) (old : Tables F) (is : List (Input F))
      → AreDistinct (signal_ids is)
      → All (λ id. has_trade id old.trades ≡ false) (signal_ids is)
      → let e = (run cfg json_entry is (new_engine cfg)).1 in
        Match
          (trades_of stamp succeeds (restarted now prices old) e.published)
          e.account.open_positions
  open_rows_follow_positions now prices old is distinct unused =
      let start = restarted now prices old in
      let recorded = started-Recorded now prices old (signal_ids is) unused in
      Follows-Match _ _
        (run-Recorded stamp succeeds start opens closes cfg json_entry is (new_engine cfg) distinct
          recorded).follows
