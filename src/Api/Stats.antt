-- ===== src/Api/Stats.antt =====
-- The statistics of backend/src/cryptoswarm/api/routes/dashboard.py and the list of
-- backend/src/cryptoswarm/api/routes/trades.py, over the table of the trades.
-- A comparison with NULL is not true, and SUM leaves NULLs out. A limit is not negative.
pub mod Totals
pub mod Sessions
use aicrypto_trader.Base.{
  ℕ, suc, ◌+◌, ◌≤◌, ◌<◌, ◌↔◌, String, ◌≡◌, refl, Option, none, some, Bool, true, false, ◌&&◌, List,
  [], ◌∷◌, ◌++◌, All, arith, length, take, ltb, leb, str_eq, if◌then◌else◌, Bool-cases, inl, inr,
}
use aicrypto_trader.Int.{pos}
use aicrypto_trader.Dict.{Dict}
use aicrypto_trader.Float.{Float, IsExact, ◌⊕◌, ◌⊗◌, ◌⊘◌, le, lt, nought, literal, of_int, sum_from}
use aicrypto_trader.Storage.{
  Write, OpenRow, CloseRow, insert_trade_open, insert_rl_tuple, update_trade_close,
  insert_circuit_event,
}
use aicrypto_trader.Database.{
  Trade, Tables, no_rows, is_open, has_trade, trade_of, insert_open, closed_trade, update_close,
  perform,
}
use aicrypto_trader.Database.Orphans.{
  close_orphan_positions, close_each, close_orphan, open_rows, exit_px, orphan_pnl,
}

pub record Stats (F : Type 0) : Type 0 where
  pub total_trades : ℕ
  pub wins : ℕ
  pub losses : ℕ
  pub total_pnl : F
  pub total_fees : F
  pub open_count : ℕ
  pub win_rate : F

-- A row of `pnl_history`.
pub record PnlPoint (F : Type 0) : Type 0 where
  pub ts : ℕ
  pub realized_pnl : F
  pub cumulative_pnl : F

module _ {F : Type 0} ⦃fl : Float F⦄ where
  -- `realized_pnl > 0`
  abbrev pub is_win : Trade F → Bool
  is_win t = elim (t.realized_pnl) [ none ↦ false | some pnl ↦ lt nought pnl ]

  -- `realized_pnl <= 0 AND closed_ts IS NOT NULL`
  abbrev pub is_loss : Trade F → Bool
  is_loss t = elim (t.realized_pnl) [
    | none ↦ false
    | some pnl ↦ if is_open t then false else le pnl nought
  ]

  unfoldable pub count_of : (Trade F → Bool) → List (Trade F) → ℕ
  count_of test [] = 0
  count_of test (t ∷ ts) = let rest = count_of test ts in if test t then suc rest else rest

  -- The values of a column that are not NULL.
  abbrev pub pnls_of : List (Trade F) → List F
  pnls_of [] = []
  pnls_of (t ∷ ts) =
      let rest = pnls_of ts in elim (t.realized_pnl) [ none ↦ rest | some pnl ↦ pnl ∷ rest ]

  abbrev pub fees_of : List (Trade F) → List F
  fees_of [] = []
  fees_of (t ∷ ts) = t.fees ∷ fees_of ts

  -- `COALESCE(SUM(column), 0)`
  abbrev pub sum_or_zero : List F → F
  sum_or_zero [] = nought
  sum_or_zero (x ∷ xs) = sum_from x xs

  abbrev pub count_real : ℕ → F
  count_real n = of_int (pos n)

  -- `round(wins / closed * 100, 1) if closed > 0 else 0`
  abbrev pub win_rate_of : ℕ → ℕ → F
  win_rate_of wins closed =
      if ltb 0 closed
      then fl.round ((count_real wins ⊘ count_real closed) ⊗ literal 100 0) 1
      else nought

  -- `get_stats`
  unfoldable pub get_stats : List (Trade F) → Stats F
  get_stats ts =
      let wins = count_of is_win ts in
      let losses = count_of is_loss ts in
      record {
        total_trades = length ts;
        wins = wins;
        losses = losses;
        total_pnl = sum_or_zero (pnls_of ts);
        total_fees = sum_or_zero (fees_of ts);
        open_count = count_of is_open ts;
        win_rate = win_rate_of wins (wins + losses);
      }

  -- `ORDER BY opened_ts DESC` of `list_trades`
  abbrev pub by_opened_desc : Trade F → List (Trade F) → List (Trade F)
  by_opened_desc t [] = t ∷ []
  by_opened_desc t (u ∷ us) =
      if ltb t.opened_ts u.opened_ts then u ∷ by_opened_desc t us else t ∷ u ∷ us

  abbrev pub latest_opened : List (Trade F) → List (Trade F)
  latest_opened [] = []
  latest_opened (t ∷ ts) = by_opened_desc t (latest_opened ts)

  -- `list_trades`
  unfoldable pub list_trades : ℕ → List (Trade F) → List (Trade F)
  list_trades limit ts = take limit (latest_opened ts)

  -- The rows of `pnl_history` by their closing times, before the window.
  abbrev pub by_closing : ℕ × F → List (ℕ × F) → List (ℕ × F)
  by_closing r [] = r ∷ []
  by_closing r (s ∷ ss) = if ltb s.0 r.0 then s ∷ by_closing r ss else r ∷ s ∷ ss

  unfoldable pub closed_pnls : List (Trade F) → List (ℕ × F)
  closed_pnls [] = []
  closed_pnls (t ∷ ts) =
      let rest = closed_pnls ts in
      elim (t.closed_ts) [
        | none ↦ rest
        | some ts ↦ elim (t.realized_pnl) [ none ↦ rest | some pnl ↦ by_closing (ts, pnl) rest ]
      ]

  -- The window from the first row to the last of the same time.
  abbrev pub until : ℕ → List (ℕ × F) → List F
  until ts [] = []
  until ts (r ∷ rs) = let rest = until ts rs in if leb r.0 ts then r.1 ∷ rest else rest

  abbrev pub points : List (ℕ × F) → List (ℕ × F) → List (PnlPoint F)
  points all [] = []
  points all (r ∷ rs) =
      record { ts = r.0; realized_pnl = r.1; cumulative_pnl = sum_or_zero (until r.0 all) }
      ∷ points all rs

  -- `pnl_history`
  unfoldable pub pnl_history : List (Trade F) → List (PnlPoint F)
  pnl_history ts = let rows = closed_pnls ts in points rows rows
