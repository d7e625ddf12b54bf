-- ===== src/Database/Followed.antt =====
-- The open rows of `trades` against the engine's open positions. The tables are those that a session
-- starts with, after all the writes of storage/subscriber.py; `stamp` gives the time stamp of the
-- message of a write.
pub mod Statements
pub mod Booked
pub mod Handlers
pub mod Signals
pub mod Runs
use aicrypto_trader.Base.{
  ℕ, String, ◌≡◌, refl, Option, none, some, Bool, true, false, ◌&&◌, List, [], ◌∷◌, All, length,
  str_eq, if◌then◌else◌,
}
use aicrypto_trader.Dict.{Dict, get, IsUnique}
use aicrypto_trader.Float.{Float, IsExact, nought, ◌⊕◌}
use aicrypto_trader.Bus.Messages.{Publication}
use aicrypto_trader.PaperTrade.Account.{OpenPosition}
use aicrypto_trader.PaperTrade.Engine.{Engine}
use aicrypto_trader.PaperTrade.Engine.Ledger.{Entry, entries}
use aicrypto_trader.PaperTrade.Engine.Invariant.{realized}
use aicrypto_trader.Storage.{OpenRow, Write, consume}
use aicrypto_trader.Database.Orphans.{open_rows}
use aicrypto_trader.Database.Orphans.Each.{IsKeyed}
use aicrypto_trader.Database.{Trade, Tables, is_open, has_trade, perform}

module _ {F : Type 0} where
  -- The arguments with which a position and a row were inserted.
  abbrev pub position_row : OpenPosition F → OpenRow F
  position_row p = record {
    correlation_id = p.correlation_id;
    symbol = p.symbol;
    side = p.side;
    qty = p.qty;
    entry_price = p.entry_price;
    leverage = p.leverage;
    sl = p.sl;
    tp = p.tp;
    fees = p.fees;
  }

  abbrev pub trade_row : Trade F → OpenRow F
  trade_row t = record {
    correlation_id = t.correlation_id;
    symbol = t.symbol;
    side = t.side;
    qty = t.qty;
    entry_price = t.entry_price;
    leverage = t.leverage;
    sl = t.sl;
    tp = t.tp;
    fees = t.fees;
  }

  -- The open row with a correlation id.
  unfoldable pub find_open : String → List (Trade F) → Option (OpenRow F)
  find_open id [] = none
  find_open id (t ∷ ts) =
      if is_open t && str_eq t.correlation_id id then some (trade_row t) else find_open id ts

  -- Every open position has its open row, and every open row its position.
  pub record Follows (ts : List (Trade F)) (d : Dict (OpenPosition F)) : Type 0 where
    pub recorded :
        (s : String) (p : OpenPosition F)
        → get d s ≡ some p
        → (find_open p.correlation_id ts ≡ some (position_row p)) × (p.symbol ≡ s)
    pub held :
        (id : String) (r : OpenRow F)
        → find_open id ts ≡ some r
        → (p : OpenPosition F) × (get d r.symbol ≡ some p) × (position_row p ≡ r)

module _ {F : Type 0} where
  -- The open row of the position under a symbol, if there is one.
  abbrev pub HasRow : List (Trade F) → String → Option (OpenPosition F) → Type 0
  HasRow ts s none = Unit
  HasRow ts s (some p) = (find_open p.correlation_id ts ≡ some (position_row p)) × (p.symbol ≡ s)

  -- The position of an open row, if there is one.
  abbrev pub HasPosition : Dict (OpenPosition F) → Option (OpenRow F) → Type 0
  HasPosition d none = Unit
  HasPosition d (some r) = (p : OpenPosition F) × (get d r.symbol ≡ some p) × (position_row p ≡ r)

  -- Every open position has its open row, and every open row that is found its position.
  pub record Match (ts : List (Trade F)) (d : Dict (OpenPosition F)) : Type 0 where
    pub rows : (s : String) → HasRow ts s (get d s)
    pub positions : (id : String) → HasPosition d (find_open id ts)

  pub Follows-Match : (ts : List (Trade F)) (d : Dict (OpenPosition F)) → Follows ts d → Match ts d
  Follows-Match ts d f = record {
    rows = λ s. row_of s (get d s) refl;
    positions = λ id. position_of id (find_open id ts) refl;
  }
    where
      row_of : (s : String) (o : Option (OpenPosition F)) → get d s ≡ o → HasRow ts s o
      row_of s none e = tt
      row_of s (some p) e = f.recorded s p e

      position_of : (id : String) (o : Option (OpenRow F)) → find_open id ts ≡ o → HasPosition d o
      position_of id none e = tt
      position_of id (some r) e = f.held id r e

module _ {F : Type 0} ⦃fl : Float F⦄ where
  -- The stored profits, of the last row first.
  abbrev pub profits : List (Trade F) → F
  profits [] = nought
  profits (t ∷ ts) =
      let rest = profits ts in elim (t.realized_pnl) [ none ↦ rest | some pnl ↦ rest ⊕ pnl ]

  -- A trade that is open has no profit yet.
  abbrev pub IsBlank : Trade F → Type 0
  IsBlank t = is_open t ≡ true → t.realized_pnl ≡ none

  -- The rows `ts` that have come from `old` since the ledger was empty agree in number and in sum.
  pub record IsBooked (old ts : List (Trade F)) (d : Dict (OpenPosition F)) (es : List (Entry F))
      : Type 0 where
    pub unique : IsUnique d
    pub keyed : IsKeyed ts
    pub blank : All IsBlank ts
    pub counted : length (open_rows ts) ≡ length d
    pub summed : IsExact F → profits ts ≡ profits old ⊕ realized es

module _ {F : Type 0} ⦃fl : Float F⦄ (stamp : Write F → ℕ) (succeeds : Write F → Bool)
    (start : Tables F) where
  -- The tables after a log of writes, the latest first.
  abbrev pub tables_after : List (Write F) → Tables F
  tables_after [] = start
  tables_after (w ∷ ws) = perform (stamp w) w (tables_after ws)

  -- The trades in the database once all that was published has been consumed.
  abbrev pub trades_of : List (Publication F) → List (Trade F)
  trades_of ps = (tables_after (consume succeeds ps)).trades

  -- The rows follow the positions, and no row has one of the ids that are still to come.
  pub record IsRecorded (later : List String) (e : Engine F) : Type 0 where
    pub follows : Follows (trades_of e.published) e.account.open_positions
    pub fresh : All (λ id. has_trade id (trades_of e.published) ≡ false) later
    pub booked :
        IsKeyed start.trades
        → IsBooked start.trades
            (trades_of e.published)
            e.account.open_positions
            (entries e.published)
