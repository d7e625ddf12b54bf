-- ===== src/Feed/Routes.antt =====
-- From the topics of the market messages to the tables: the publications of feed/handler.py,
-- storage/subscriber.py and storage/timescale.py together.
use aicrypto_trader.Base.{
  String, ◌≡◌, ◌++◌, if◌then◌else◌, Bool, true, not, ◌&&◌, List, [], ◌∷◌, All, cat, contains,
}
use aicrypto_trader.Float.{Float}
use aicrypto_trader.Config.{default_settings, symbol_list, is_listed}
use aicrypto_trader.Feed.Frames.{
  MarketTick, FundingUpdate, LiquidationEvent, BookTicker, MarketMessage, tick, mark, funding,
  liquidation, book,
}
use aicrypto_trader.Feed.Handler.{topic_of, kline_topic}
use aicrypto_trader.Feed.Stored.{
  MarkRow, MarketTables, kline_key, mark_key, funding_key, book_key, route_market,
}
use aicrypto_trader.Feed.Filed.{upsert_all, IsThere}

module _ {F : Type 0} where
  abbrev pub symbol_of : MarketMessage F → String
  symbol_of (tick t) = t.symbol
  symbol_of (mark ts p) = p.symbol
  symbol_of (funding f) = f.symbol
  symbol_of (liquidation l) = l.symbol
  symbol_of (book b) = b.symbol

  -- The interval of a candle is the one of the streams that ws_client.py asks for.
  abbrev pub IsMinute : MarketMessage F → Type 0
  IsMinute (tick t) = t.interval ≡ "1m"
  IsMinute (mark ts p) = Unit
  IsMinute (funding f) = Unit
  IsMinute (liquidation l) = Unit
  IsMinute (book b) = Unit

  unfoldable pub route_all : List (MarketMessage F) → MarketTables F → MarketTables F
  route_all [] d = d
  route_all (m ∷ ms) d = route_all ms (route_market (topic_of m) m d)

  -- The rows of each class among the messages, in their order; an open candle is no row.
  abbrev pub closed_candles : List (MarketMessage F) → List (MarketTick F)
  closed_candles [] = []
  closed_candles (tick t ∷ ms) =
      let rest = closed_candles ms in if t.is_closed then t ∷ rest else rest
  closed_candles (mark ts p ∷ ms) = closed_candles ms
  closed_candles (funding f ∷ ms) = closed_candles ms
  closed_candles (liquidation l ∷ ms) = closed_candles ms
  closed_candles (book b ∷ ms) = closed_candles ms

  abbrev pub mark_rows : List (MarketMessage F) → List (MarkRow F)
  mark_rows [] = []
  mark_rows (mark time p ∷ ms) = record { ts = time; price = p } ∷ mark_rows ms
  mark_rows (tick t ∷ ms) = mark_rows ms
  mark_rows (funding f ∷ ms) = mark_rows ms
  mark_rows (liquidation l ∷ ms) = mark_rows ms
  mark_rows (book b ∷ ms) = mark_rows ms

  abbrev pub funding_rows : List (MarketMessage F) → List (FundingUpdate F)
  funding_rows [] = []
  funding_rows (funding f ∷ ms) = f ∷ funding_rows ms
  funding_rows (tick t ∷ ms) = funding_rows ms
  funding_rows (mark ts p ∷ ms) = funding_rows ms
  funding_rows (liquidation l ∷ ms) = funding_rows ms
  funding_rows (book b ∷ ms) = funding_rows ms

  abbrev pub liquidation_rows : List (MarketMessage F) → List (LiquidationEvent F)
  liquidation_rows [] = []
  liquidation_rows (liquidation l ∷ ms) = l ∷ liquidation_rows ms
  liquidation_rows (tick t ∷ ms) = liquidation_rows ms
  liquidation_rows (mark ts p ∷ ms) = liquidation_rows ms
  liquidation_rows (funding f ∷ ms) = liquidation_rows ms
  liquidation_rows (book b ∷ ms) = liquidation_rows ms

  abbrev pub book_rows : List (MarketMessage F) → List (BookTicker F)
  book_rows [] = []
  book_rows (book b ∷ ms) = b ∷ book_rows ms
  book_rows (tick t ∷ ms) = book_rows ms
  book_rows (mark ts p ∷ ms) = book_rows ms
  book_rows (funding f ∷ ms) = book_rows ms
  book_rows (liquidation l ∷ ms) = book_rows ms

  -- The tables with the rows of each class in the table of the class.
  abbrev pub filed : List (MarketMessage F) → MarketTables F → MarketTables F
  filed ms d = record {
    klines = upsert_all kline_key (closed_candles ms) d.klines;
    mark_prices = upsert_all mark_key (mark_rows ms) d.mark_prices;
    funding_rates = upsert_all funding_key (funding_rows ms) d.funding_rates;
    liquidations = d.liquidations ++ liquidation_rows ms;
    book_tickers = upsert_all book_key (book_rows ms) d.book_tickers;
  }

  -- Each message has a row with its key in the table of its class.
  abbrev pub IsFiled : List (MarketMessage F) → MarketTables F → Type 0
  IsFiled ms d =
      All (λ t. IsThere kline_key (kline_key t) d.klines) (closed_candles ms)
      × All (λ r. IsThere mark_key (mark_key r) d.mark_prices) (mark_rows ms)
      × All (λ f. IsThere funding_key (funding_key f) d.funding_rates) (funding_rows ms)
      × All (λ b. IsThere book_key (book_key b) d.book_tickers) (book_rows ms)

-- The first test of the subscriber that a topic passes is the one of its class.
abbrev is_routed : String → Bool
is_routed s =
    contains (kline_topic s "1m") ".tick."
    && (not (contains (cat "market.mark." s) ".tick.") && contains (cat "market.mark." s) ".mark.")
    && (not (contains (cat "market.funding." s) ".tick.")
        && not (contains (cat "market.funding." s) ".mark.")
        && contains (cat "market.funding." s) ".funding.")
    && (not (contains (cat "market.liq." s) ".tick.")
        && not (contains (cat "market.liq." s) ".mark.")
        && not (contains (cat "market.liq." s) ".funding.")
        && contains (cat "market.liq." s) ".liq.")
    && (not (contains (cat "market.book." s) ".tick.")
        && not (contains (cat "market.book." s) ".mark.")
        && not (contains (cat "market.book." s) ".funding.")
        && not (contains (cat "market.book." s) ".liq.")
        && contains (cat "market.book." s) ".book.")

abbrev all_routed : List String → Bool
all_routed [] = true
all_routed (s ∷ ss) = is_routed s && all_routed ss

module _ (F : Type 0) ⦃fl : Float F⦄ where
  abbrev configured : List String
  configured = symbol_list (default_settings {F = F})

module _ {F : Type 0} ⦃fl : Float F⦄ where
  -- A message of a configured symbol, and of the interval that is streamed.
  abbrev pub IsOrdinary : MarketMessage F → Type 0
  IsOrdinary m = (is_listed (symbol_of m) (configured F) ≡ true) × IsMinute m
