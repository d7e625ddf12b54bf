-- ===== src/Api/Stats/Totals.antt =====
-- The statistics over all that the program does to the trades.
use aicrypto_trader.Base.{
  ℕ, suc, ◌+◌, String, ◌≡◌, refl, ap, ◌∙◌, none, some, false, ◌&&◌, List, [], ◌∷◌, ◌++◌, All, arith,
  length, str_eq, if_intro, Option-cases, inl, inr,
}
use aicrypto_trader.Dict.{Dict}
use aicrypto_trader.Float.{Float, IsExact, nought}
use aicrypto_trader.Storage.{
  Write, OpenRow, CloseRow, insert_trade_open, insert_rl_tuple, update_trade_close,
  insert_circuit_event,
}
use aicrypto_trader.Database.{
  Trade, Tables, no_rows, is_open, has_trade, trade_of, insert_open, update_close, perform,
}
use aicrypto_trader.Database.Orphans.{close_orphan_positions, close_each, close_orphan, open_rows}
use aicrypto_trader.Api.Stats.{
  is_win, is_loss, count_of, get_stats, by_closing, closed_pnls, points, pnl_history,
}

-- What happens to the tables: a write of the storage subscriber, or the start of a session.
pub data Change (F : Type 0) : Type 0 where
  written : ℕ → Write F → Change F
  started : ℕ → Dict F → Change F

module _ {F : Type 0} ⦃fl : Float F⦄ where
  abbrev pub change : Change F → Tables F → Tables F
  change (written at w) d = perform at w d
  change (started now prices) d = record d {
    trades = (close_orphan_positions now prices d.trades).1;
  }

  -- The latest change is last.
  abbrev pub changes : List (Change F) → Tables F → Tables F
  changes [] d = d
  changes (c ∷ cs) d = changes cs (change c d)

  -- A trade has a profit exactly if it is closed.
  abbrev pub IsSettled : Trade F → Type 0
  IsSettled t = elim (t.realized_pnl) [ none ↦ t.closed_ts ≡ none | some pnl ↦ is_open t ≡ false ]

  insert_open-IsSettled :
      (at : ℕ) (r : OpenRow F) (ts : List (Trade F))
      → All IsSettled ts
      → All IsSettled (insert_open at r ts)
  unfolding insert_open
  insert_open-IsSettled at r ts h =
      if_intro (All IsSettled) (has_trade r.correlation_id ts) _ _ (λ _. h) (λ _. go ts h)
    where
      go : (us : List (Trade F)) → All IsSettled us → All IsSettled (us ++ (trade_of at r ∷ []))
      go [] h = (refl, tt)
      go (u ∷ us) (h, hs) = (h, go us hs)

  update_close-IsSettled :
      (at : ℕ) (r : CloseRow F) (ts : List (Trade F))
      → All IsSettled ts
      → All IsSettled (update_close at r ts)
  unfolding update_close
  update_close-IsSettled at r [] h = tt
  update_close-IsSettled at r (t ∷ ts) (h, hs) = (
    if_intro IsSettled (str_eq t.correlation_id r.correlation_id) _ _ (λ _. refl) (λ _. h),
    update_close-IsSettled at r ts hs,
  )

  close_orphan-IsSettled :
      (now : ℕ) (exit pnl : F) (id : String) (ts : List (Trade F))
      → All IsSettled ts
      → All IsSettled (close_orphan now exit pnl id ts)
  unfolding close_orphan
  close_orphan-IsSettled now exit pnl id [] h = tt
  close_orphan-IsSettled now exit pnl id (t ∷ ts) (h, hs) = (
    if_intro IsSettled (str_eq t.correlation_id id && is_open t) _ _ (λ _. refl) (λ _. h),
    close_orphan-IsSettled now exit pnl id ts hs,
  )

  close_each-IsSettled :
      (now : ℕ) (prices : Dict F) (rows ts : List (Trade F))
      → All IsSettled ts
      → All IsSettled (close_each now prices rows ts)
  unfolding close_each
  close_each-IsSettled now prices [] ts h = h
  close_each-IsSettled now prices (row ∷ rows) ts h =
      close_each-IsSettled now prices rows _
        (close_orphan-IsSettled now _ _ row.correlation_id ts h)

  change-IsSettled :
      (c : Change F) (d : Tables F) → All IsSettled d.trades → All IsSettled (change c d).trades
  unfolding perform close_orphan_positions
  change-IsSettled (written at (insert_trade_open r)) d h = insert_open-IsSettled at r d.trades h
  change-IsSettled (written at (insert_rl_tuple a)) d h = h
  change-IsSettled (written at (update_trade_close r)) d h = update_close-IsSettled at r d.trades h
  change-IsSettled (written at (insert_circuit_event b x y)) d h = h
  change-IsSettled (started now prices) d h =
      close_each-IsSettled now prices (open_rows d.trades) d.trades h

  changes-IsSettled :
      (cs : List (Change F)) (d : Tables F)
      → All IsSettled d.trades
      → All IsSettled (changes cs d).trades
  changes-IsSettled [] d h = h
  changes-IsSettled (c ∷ cs) d h = changes-IsSettled cs (change c d) (change-IsSettled c d h)

  -- The counts of the statistics.
  counts_add_up :
      (ex : IsExact F) (ts : List (Trade F))
      → All IsSettled ts
      → count_of is_win ts + count_of is_loss ts + count_of is_open ts ≡ length ts
  unfolding count_of
  counts_add_up ex [] h = refl
  counts_add_up ex (t ∷ ts) (h, hs) = elim (Option-cases (t.realized_pnl)) [
    | inl e ↦ ground (arith, counts_add_up ex ts hs)
    | inr (pnl, e) ↦
        ground (arith, counts_add_up ex ts hs, ex.lt_iff nought pnl, ex.le_iff pnl nought)
  ]

  length-by_closing : (r : ℕ × F) (rs : List (ℕ × F)) → length (by_closing r rs) ≡ suc (length rs)
  length-by_closing r [] = refl
  length-by_closing r (s ∷ ss) = ground (arith, length-by_closing r ss)

  length-closed_pnls :
      (ex : IsExact F) (ts : List (Trade F))
      → All IsSettled ts
      → length (closed_pnls ts) ≡ count_of is_win ts + count_of is_loss ts
  unfolding closed_pnls count_of
  length-closed_pnls ex [] h = refl
  length-closed_pnls ex (t ∷ ts) (h, hs) = elim (Option-cases (t.realized_pnl)) [
    | inl e ↦ ground (arith, length-closed_pnls ex ts hs)
    | inr (pnl, e) ↦ elim (Option-cases (t.closed_ts)) [
      | inl c ↦ absurd (ground arith)
      | inr (at, c) ↦ ground (
        arith,
        length-closed_pnls ex ts hs,
        length-by_closing (at, pnl) (closed_pnls ts),
        ex.lt_iff nought pnl,
        ex.le_iff pnl nought,
      )
    ]
  ]

  length-points : (all rows : List (ℕ × F)) → length (points all rows) ≡ length rows
  length-points all [] = refl
  length-points all (r ∷ rs) = ap suc (length-points all rs)

  -- The dashboard's numbers fit together.
  pub record AddUp (ts : List (Trade F)) : Type 0 where
    pub counted :
        (get_stats ts).wins + (get_stats ts).losses + (get_stats ts).open_count
        ≡ (get_stats ts).total_trades
    pub charted : length (pnl_history ts) ≡ (get_stats ts).wins + (get_stats ts).losses

  -- On exact amounts: whatever the storage subscriber writes and whenever a session starts and closes
  -- the orphans, from an empty database on, the wins, the losses and the open trades of the
  -- statistics add up to the number of trades, and the profit history has one point for each win and
  -- loss.
  pub get_stats-AddUp : (ex : IsExact F) (cs : List (Change F)) → AddUp (changes cs no_rows).trades
  unfolding get_stats pnl_history
  get_stats-AddUp ex cs =
      let d = changes cs no_rows in
      let settled = changes-IsSettled cs no_rows tt in
      let rows = closed_pnls d.trades in
      record {
        counted = counts_add_up ex d.trades settled;
        charted = length-points rows rows ∙ length-closed_pnls ex d.trades settled;
      }
