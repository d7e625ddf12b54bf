-- ===== src/Feed/Stored.antt =====
-- `_route_market` of storage/subscriber.py and the tables of storage/timescale.py.
-- A table is the list of its rows, the latest insertion last. The database takes every statement.
use aicrypto_trader.Base.{
  ℕ, String, Option, none, some, Bool, true, false, ◌&&◌, List, [], ◌∷◌, ◌++◌, ◌==◌, str_eq, ltb,
  take, contains, if◌then◌else◌,
}
use aicrypto_trader.Dict.{Dict, get, put}
use aicrypto_trader.Bus.Messages.{MarkPrice}
use aicrypto_trader.Feed.Frames.{
  MarketTick, FundingUpdate, LiquidationEvent, BookTicker, MarketMessage, tick, mark, funding,
  liquidation, book,
}

pub record MarkRow (F : Type 0) : Type 0 where
  pub ts : ℕ
  pub price : MarkPrice F

pub record MarketTables (F : Type 0) : Type 0 where
  pub klines : List (MarketTick F)
  pub mark_prices : List (MarkRow F)
  pub funding_rates : List (FundingUpdate F)
  pub liquidations : List (LiquidationEvent F)
  pub book_tickers : List (BookTicker F)

-- `key` gives the symbol and the time of a row. INSERT ... ON CONFLICT DO NOTHING
module _ {R : Type 0} (key : R → String × ℕ) where
  unfoldable pub has_key : String × ℕ → List R → Bool
  has_key k [] = false
  has_key k (r ∷ rs) = if str_eq (key r).0 k.0 && ((key r).1 == k.1) then true else has_key k rs

  unfoldable pub upsert : R → List R → List R
  upsert r rs = if has_key (key r) rs then rs else rs ++ (r ∷ [])

module _ {F : Type 0} where
  abbrev pub kline_key : MarketTick F → String × ℕ
  kline_key t = (t.symbol, t.ts)

  abbrev pub mark_key : MarkRow F → String × ℕ
  mark_key r = (r.price.symbol, r.ts)

  abbrev pub funding_key : FundingUpdate F → String × ℕ
  funding_key f = (f.symbol, f.funding_time)

  abbrev pub book_key : BookTicker F → String × ℕ
  book_key b = (b.symbol, b.ts)

  -- The statement for a message; only closed candles are stored.
  unfoldable pub insert_message : MarketMessage F → MarketTables F → MarketTables F
  insert_message (tick t) d =
      if t.is_closed then record d { klines = upsert kline_key t d.klines } else d
  insert_message (mark ts p) d = record d {
    mark_prices = upsert mark_key (record { ts = ts; price = p }) d.mark_prices;
  }
  insert_message (funding f) d = record d { funding_rates = upsert funding_key f d.funding_rates }
  insert_message (liquidation l) d = record d { liquidations = d.liquidations ++ (l ∷ []) }
  insert_message (book b) d = record d { book_tickers = upsert book_key b d.book_tickers }

  abbrev is_tick : MarketMessage F → Bool
  is_tick (tick t) = true
  is_tick (mark ts p) = false
  is_tick (funding f) = false
  is_tick (liquidation l) = false
  is_tick (book b) = false

  abbrev is_mark : MarketMessage F → Bool
  is_mark (tick t) = false
  is_mark (mark ts p) = true
  is_mark (funding f) = false
  is_mark (liquidation l) = false
  is_mark (book b) = false

  abbrev is_funding : MarketMessage F → Bool
  is_funding (tick t) = false
  is_funding (mark ts p) = false
  is_funding (funding f) = true
  is_funding (liquidation l) = false
  is_funding (book b) = false

  abbrev is_liquidation : MarketMessage F → Bool
  is_liquidation (tick t) = false
  is_liquidation (mark ts p) = false
  is_liquidation (funding f) = false
  is_liquidation (liquidation l) = true
  is_liquidation (book b) = false

  abbrev is_book : MarketMessage F → Bool
  is_book (tick t) = false
  is_book (mark ts p) = false
  is_book (funding f) = false
  is_book (liquidation l) = false
  is_book (book b) = true

  -- The text of a message read as a class: another class fails to validate, and is logged.
  abbrev insert_as : Bool → MarketMessage F → MarketTables F → MarketTables F
  insert_as is_class m d = if is_class then insert_message m d else d

  -- `_route_market`
  unfoldable pub route_market : String → MarketMessage F → MarketTables F → MarketTables F
  route_market topic m d =
      if contains topic ".tick."
      then insert_as (is_tick m) m d
      else if contains topic ".mark."
      then insert_as (is_mark m) m d
      else if contains topic ".funding."
      then insert_as (is_funding m) m d
      else if contains topic ".liq."
      then insert_as (is_liquidation m) m d
      else if contains topic ".book."
      then insert_as (is_book m) m d
      else d

  -- WHERE symbol = $1 ORDER BY ts DESC
  abbrev pub by_time : MarketTick F → List (MarketTick F) → List (MarketTick F)
  by_time t [] = t ∷ []
  by_time t (u ∷ us) = if ltb t.ts u.ts then u ∷ by_time t us else t ∷ u ∷ us

  unfoldable pub newest_first : String → List (MarketTick F) → List (MarketTick F)
  newest_first symbol [] = []
  newest_first symbol (t ∷ ts) =
      let rest = newest_first symbol ts in if str_eq t.symbol symbol then by_time t rest else rest

  -- `reversed`
  abbrev pub reversed : List (MarketTick F) → List (MarketTick F)
  reversed [] = []
  reversed (t ∷ ts) = reversed ts ++ (t ∷ [])

  -- `fetch_klines`
  unfoldable pub fetch_klines : String → ℕ → List (MarketTick F) → List (MarketTick F)
  fetch_klines symbol limit rows = reversed (take limit (newest_first symbol rows))

  -- SELECT DISTINCT ON (symbol) ... ORDER BY symbol, ts DESC: the latest row of each symbol.
  abbrev pub later_row : MarkRow F → Option (MarkRow F) → MarkRow F
  later_row r none = r
  later_row r (some s) = if ltb r.ts s.ts then s else r

  unfoldable pub latest_rows : List (MarkRow F) → Dict (MarkRow F)
  latest_rows [] = []
  latest_rows (r ∷ rs) =
      let rest = latest_rows rs in put rest r.price.symbol (later_row r (get rest r.price.symbol))

  abbrev pub prices_of : Dict (MarkRow F) → Dict F
  prices_of [] = []
  prices_of ((symbol, r) ∷ d) = (symbol, r.price.mark_price) ∷ prices_of d

  unfoldable pub get_latest_mark_prices : List (MarkRow F) → Dict F
  get_latest_mark_prices rows = prices_of (latest_rows rows)
