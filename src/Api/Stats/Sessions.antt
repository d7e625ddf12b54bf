-- ===== src/Api/Stats/Sessions.antt =====
-- The dashboard's statistics after a session: the start as in backend/src/cryptoswarm/main.py, a run of
-- the engine, and the storage subscriber.
use aicrypto_trader.Base.{
  ℕ, String, ◌≡◌, refl, sym, ap, ◌∙◌, Option, true, false, List, [], ◌∷◌, All, arith, length,
  Option-cases, Bool, inl, inr,
}
use aicrypto_trader.Dict.{Dict}
use aicrypto_trader.Float.{Float, IsExact, ◌⊕◌, sum_from}
use aicrypto_trader.Config.{Settings}
use aicrypto_trader.PaperTrade.Engine.{new_engine}
use aicrypto_trader.PaperTrade.Engine.Ledger.{entries}
use aicrypto_trader.PaperTrade.Engine.Invariant.{realized}
use aicrypto_trader.PaperTrade.Engine.Run.{Input, run}
use aicrypto_trader.Storage.{OpenRow, CloseRow, Write, insert_trade_open, update_trade_close}
use aicrypto_trader.Database.{Trade, Tables, has_trade, is_open}
use aicrypto_trader.Database.Orphans.{open_rows}
use aicrypto_trader.Database.Orphans.Each.{IsKeyed}
use aicrypto_trader.Database.Orphans.Keys.{close_orphan_positions-IsKeyed}
use aicrypto_trader.Database.Followed.{profits, trades_of}
use aicrypto_trader.Database.Followed.Runs.{
  AreDistinct, signal_ids, restarted, run-Recorded, started-Recorded,
}
use aicrypto_trader.Api.Stats.{count_of, pnls_of, sum_or_zero, get_stats}

module _ {F : Type 0} ⦃fl : Float F⦄ where
  count_of-open_rows : (ts : List (Trade F)) → count_of is_open ts ≡ length (open_rows ts)
  unfolding count_of open_rows
  count_of-open_rows [] = refl
  count_of-open_rows (t ∷ ts) = ground (arith, count_of-open_rows ts)

  module _ (ex : IsExact F) where
    open ex use {add_parts, zero_parts, eq_of_parts}

    sum_from-profits :
        (acc : F) (ts : List (Trade F)) → sum_from acc (pnls_of ts) ≡ acc ⊕ profits ts
    sum_from-profits acc [] = omega (arith, add_parts, zero_parts, eq_of_parts)
    sum_from-profits acc (t ∷ ts) = elim (Option-cases (t.realized_pnl)) [
      | inl e ↦ rw e (sum_from-profits acc ts)
      | inr (pnl, e) ↦
          rw e (sum_from-profits (acc ⊕ pnl) ts ∙ omega (arith, add_parts, eq_of_parts))
    ]

    sum_or_zero-profits : (ts : List (Trade F)) → sum_or_zero (pnls_of ts) ≡ profits ts
    sum_or_zero-profits [] = refl
    sum_or_zero-profits (t ∷ ts) = elim (Option-cases (t.realized_pnl)) [
      | inl e ↦ rw e (sum_or_zero-profits ts)
      | inr (pnl, e) ↦ rw e (sum_from-profits pnl ts ∙ omega (arith, add_parts, eq_of_parts))
    ]

module _ {F : Type 0} ⦃fl : Float F⦄ (stamp : Write F → ℕ) (succeeds : Write F → Bool)
    (opens : (r : OpenRow F) → succeeds (insert_trade_open r) ≡ true)
    (closes : (r : CloseRow F) → succeeds (update_trade_close r) ≡ true) (cfg : Settings F)
    (json_entry : String → Option F) where
  -- On exact amounts: when a session starts with closing the orphan positions of a table in which no
  -- correlation id stands twice, a new engine then runs over signals whose correlation ids differ from
  -- each other and from those in the table, and the database takes every insertion and update of a
  -- trade, then, however the run ends, the dashboard's number of open trades is the number of the
  -- engine's open positions, and since the start its total profit has grown by exactly the net
  -- profits of the closures that the engine published.
  pub get_stats_after_session :
      (ex : IsExact F) (now : ℕ) (prices : Dict F) (old : Tables F) (is : List (Input F))
      → IsKeyed old.trades
      → AreDistinct (signal_ids is)
      → All (λ id. has_trade id old.trades ≡ false) (signal_ids is)
      → let start = restarted now prices old in
        let e = (run cfg json_entry is (new_engine cfg)).1 in
        let stats = get_stats (trades_of stamp succeeds start e.published) in
        (stats.open_count ≡ length e.account.open_positions)
        × (stats.total_pnl ≡ (get_stats start.trades).total_pnl ⊕ realized (entries e.published))
  unfolding get_stats
  get_stats_after_session ex now prices old is keyed distinct unused =
      let start = restarted now prices old in
      let e = (run cfg json_entry is (new_engine cfg)).1 in
      let recorded =
        run-Recorded stamp succeeds start opens closes cfg json_entry is (new_engine cfg) distinct (
          started-Recorded stamp succeeds opens closes cfg json_entry now prices old (signal_ids is)
            unused) in
      let booked = recorded.booked (close_orphan_positions-IsKeyed now prices old.trades keyed) in
      let ts = trades_of stamp succeeds start e.published in
      (
        count_of-open_rows ts ∙ booked.counted,
        sum_or_zero-profits ex ts
            ∙ booked.summed ex
            ∙ ap (λ x. x ⊕ realized (entries e.published))
                (sym (sum_or_zero-profits ex start.trades)),
      )
