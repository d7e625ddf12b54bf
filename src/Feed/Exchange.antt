-- ===== src/Feed/Exchange.antt =====
-- The frames as the exchange documents them, and what backend/src/cryptoswarm/feed/handler.py reads
-- from them. `show` and `show_time` are the texts that the exchange writes for an amount and a time.
use aicrypto_trader.Base.{ℕ, String, ◌≡◌, true, false, List, [], ◌∷◌, str_eq, contains}
use aicrypto_trader.Bus.Messages.{MarkPrice}
use aicrypto_trader.Feed.Frames.{
  Fields, text, number, flag, object, empty, field, OrderSide, buy, sell, MarketTick,
  LiquidationEvent, MarketMessage, tick, mark, funding, liquidation, book,
}

-- What happens on the exchange: a candle, a mark price with its funding rate, a forced order, and a
-- change of the best prices.
pub data Event (F : Type 0) : Type 0 where
  candle : MarketTick F → Event F
  marked : ℕ → MarkPrice F → F → Event F
  forced : LiquidationEvent F → Event F
  best : String → F → F → Event F

abbrev side_name : OrderSide → String
side_name buy = "BUY"
side_name sell = "SELL"

module _ {F : Type 0} (show : F → String) (show_time : ℕ → String) where
  abbrev amount_field : String → F → Fields → Fields
  amount_field key x fs = field key (text (show x)) fs

  abbrev time_field : String → ℕ → Fields → Fields
  time_field key t fs = field key (number (show_time t)) fs

  -- The data of the frame for an event.
  abbrev data_of : Event F → Fields
  data_of (candle t) =
      let rest = amount_field "v" t.volume (field "x" (flag t.is_closed) empty) in
      let prices =
        amount_field "o" t.open_price
          (amount_field "c" t.close (amount_field "h" t.high (amount_field "l" t.low rest))) in
      let k =
        time_field "t" t.ts (field "s" (text t.symbol) (field "i" (text t.interval) prices)) in
      field "s" (text t.symbol) (field "k" (object k) empty)
  data_of (marked ts p rate) = field "s" (text p.symbol) (
      amount_field "p" p.mark_price
        (amount_field "i" p.index_price (amount_field "r" rate (time_field "T" ts empty))))
  data_of (forced l) =
      let amounts = amount_field "q" l.qty (amount_field "p" l.price (time_field "T" l.ts empty)) in
      field "o" (object (field "s" (text l.symbol) (field "S" (text (side_name l.side)) amounts)))
        empty
  data_of (best symbol bid ask) =
      field "s" (text symbol) (amount_field "b" bid (amount_field "a" ask empty))

  abbrev pub frame_of : String → Event F → Fields
  frame_of stream e = field "stream" (text stream) (field "data" (object (data_of e)) empty)

-- The name of the stream is one of the event's class.
abbrev pub IsStreamOf : {F : Type 0} → String → Event F → Type 0
IsStreamOf stream (candle t) = contains stream "@kline_" ≡ true
IsStreamOf stream (marked ts p rate) =
    (contains stream "@kline_" ≡ false) × (contains stream "@markPrice" ≡ true)
IsStreamOf stream (forced l) =
    (contains stream "@kline_" ≡ false)
    × (contains stream "@markPrice" ≡ false)
    × (contains stream "@forceOrder" ≡ true)
IsStreamOf stream (best symbol bid ask) =
    (contains stream "@kline_" ≡ false)
    × (contains stream "@markPrice" ≡ false)
    × (contains stream "@forceOrder" ≡ false)
    × (str_eq stream "!forceOrder@arr" ≡ false)
    × (contains stream "@bookTicker" ≡ true)

-- What should be published for an event; the best prices get the time at which they are read.
abbrev pub messages_of : {F : Type 0} → ℕ → Event F → List (MarketMessage F)
messages_of now (candle t) = tick t ∷ []
messages_of now (marked ts p rate) =
    mark ts p ∷ funding (record { symbol = p.symbol; funding_time = ts; rate = rate }) ∷ []
messages_of now (forced l) = liquidation l ∷ []
messages_of now (best symbol bid ask) =
    book (record { symbol = symbol; best_bid = bid; best_ask = ask; ts = now }) ∷ []
