-- ===== src/Database/Orphans.antt =====
-- `close_orphan_positions` of storage/postgres.py: what the start of a session does to the trades
-- that an earlier session left open.
pub mod Each
pub mod Keys
use aicrypto_trader.Base.{
  ℕ, suc, String, ◌≡◌, refl, sym, Option, none, some, Bool, true, false, ◌&&◌, List, [], ◌∷◌, All,
  length, str_eq, eq_iff, str_eq_refl, arith, if◌then◌else◌, ◌⊎◌, inl, inr,
}
use aicrypto_trader.Dict.{Dict, get}
use aicrypto_trader.Float.{Float, ◌⊖◌, ◌⊗◌}
use aicrypto_trader.Bus.Messages.{Side, long, short}
use aicrypto_trader.Database.{Trade, is_open, session_reset, has_trade}

module _ {F : Type 0} where
  -- The fetched rows: those with `closed_ts IS NULL`.
  unfoldable pub open_rows : List (Trade F) → List (Trade F)
  open_rows [] = []
  open_rows (t ∷ ts) = let rest = open_rows ts in if is_open t then t ∷ rest else rest

module _ {F : Type 0} ⦃fl : Float F⦄ where
  -- `prices.get(row["symbol"], row["entry_price"])`
  unfoldable pub exit_px : Dict F → Trade F → F
  exit_px prices row = elim (get prices row.symbol) [ none ↦ row.entry_price | some price ↦ price ]

  unfoldable pub orphan_pnl : Side → F → F → F → F
  orphan_pnl long exit entry qty = (exit ⊖ entry) ⊗ qty
  orphan_pnl short exit entry qty = (entry ⊖ exit) ⊗ qty

  abbrev pub reset_trade : ℕ → F → F → Trade F → Trade F
  reset_trade now exit pnl t = record t {
    exit_price = some exit;
    exit_reason = some session_reset;
    realized_pnl = some pnl;
    closed_ts = some now;
  }

  -- The UPDATE of one row that was fetched.
  unfoldable pub close_orphan : ℕ → F → F → String → List (Trade F) → List (Trade F)
  close_orphan now exit pnl id [] = []
  close_orphan now exit pnl id (t ∷ ts) =
      (if str_eq t.correlation_id id && is_open t then reset_trade now exit pnl t else t)
      ∷ close_orphan now exit pnl id ts

  unfoldable pub close_each : ℕ → Dict F → List (Trade F) → List (Trade F) → List (Trade F)
  close_each now prices [] trades = trades
  close_each now prices (row ∷ rows) trades =
      let exit = exit_px prices row in
      close_each now prices rows (
        close_orphan now exit (orphan_pnl row.side exit row.entry_price row.qty) row.correlation_id
          trades)

  -- The number of rows that were fetched, and the table.
  unfoldable pub close_orphan_positions : ℕ → Dict F → List (Trade F) → ℕ × List (Trade F)
  close_orphan_positions now prices trades =
      let rows = open_rows trades in (length rows, close_each now prices rows trades)

  -- A trade that is open still has its correlation id among the rows that are left to close.
  abbrev IsLeft : List (Trade F) → Trade F → Type 0
  IsLeft rows t = is_open t ≡ true → has_trade t.correlation_id rows ≡ true

  close_orphan-IsLeft :
      (now : ℕ) (exit pnl : F) (row : Trade F) (rows ts : List (Trade F))
      → All (IsLeft (row ∷ rows)) ts
      → All (IsLeft rows) (close_orphan now exit pnl row.correlation_id ts)
  unfolding close_orphan has_trade
  close_orphan-IsLeft now exit pnl row rows [] h = tt
  close_orphan-IsLeft now exit pnl row rows (t ∷ ts) (h, hs) = (
    ground (
      arith,
      eq_iff t.correlation_id row.correlation_id,
      eq_iff row.correlation_id t.correlation_id,
    ),
    close_orphan-IsLeft now exit pnl row rows ts hs,
  )

  close_each-IsLeft :
      (now : ℕ) (prices : Dict F) (rows ts : List (Trade F))
      → All (IsLeft rows) ts
      → All (IsLeft []) (close_each now prices rows ts)
  unfolding close_each
  close_each-IsLeft now prices [] ts h = h
  close_each-IsLeft now prices (row ∷ rows) ts h =
      close_each-IsLeft now prices rows _ (close_orphan-IsLeft now _ _ row rows ts h)

  All-map :
      {P Q : Trade F → Type 0} (ts : List (Trade F))
      → ((t : Trade F) → P t → Q t)
      → All P ts
      → All Q ts
  All-map [] f h = tt
  All-map (t ∷ ts) f (h, hs) = (f t h, All-map ts f hs)

  open_rows-IsLeft : (ts : List (Trade F)) → All (IsLeft (open_rows ts)) ts
  unfolding open_rows has_trade
  open_rows-IsLeft [] = tt
  open_rows-IsLeft (t ∷ ts) = (
    ground (arith, str_eq_refl t.correlation_id),
    All-map ts (λ u h. ground arith) (open_rows-IsLeft ts),
  )

  open_rows_none : (ts : List (Trade F)) → All (IsLeft []) ts → open_rows ts ≡ []
  unfolding open_rows has_trade
  open_rows_none [] h = refl
  open_rows_none (t ∷ ts) (h, hs) = ground (arith, open_rows_none ts hs)

  -- The start of a session leaves no trade open, whatever the table holds and whatever prices are
  -- known, and a second start closes none and changes nothing.
  pub close_orphan_positions-again :
      (now later : ℕ) (prices others : Dict F) (trades : List (Trade F))
      → let after = (close_orphan_positions now prices trades).1 in
        (open_rows after ≡ []) × (close_orphan_positions later others after ≡ (0, after))
  unfolding close_orphan_positions close_each
  close_orphan_positions-again now later prices others trades =
      let none_open =
        open_rows_none (close_each now prices (open_rows trades) trades)
          (close_each-IsLeft now prices (open_rows trades) trades (open_rows-IsLeft trades)) in
      (none_open, rw none_open refl)
