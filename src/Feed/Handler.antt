-- ===== src/Feed/Handler.antt =====
-- backend/src/cryptoswarm/feed/handler.py: a frame becomes messages.
-- The bus takes every message; `now` is the time at which a message without a time of its own is
-- made.
use aicrypto_trader.Base.{
  cat, ℕ, String, Option, none, some, Bool, true, false, List, [], ◌∷◌, str_eq, ◌||◌, if◌then◌else◌,
  ◌>>=◌,
}
use aicrypto_trader.Feed.Frames.{
  Value, text, number, flag, object, Fields, Numbers, has_part, is_container, find, find_or,
  fields_of, text_of, time_of, truth, float_of, OrderSide, buy, sell, MarketMessage, tick, mark,
  funding, liquidation, book,
}

abbrev pub kline_topic : String → String → String
kline_topic symbol interval = cat "market.tick." (cat symbol (cat "." interval))

-- The topic under which each handler publishes its message.
abbrev pub topic_of : {F : Type 0} → MarketMessage F → String
topic_of (tick t) = kline_topic t.symbol t.interval
topic_of (mark ts p) = cat "market.mark." p.symbol
topic_of (funding f) = cat "market.funding." f.symbol
topic_of (liquidation l) = cat "market.liq." l.symbol
topic_of (book b) = cat "market.book." b.symbol

-- The messages in their order, and whether the frame was handled to its end.
abbrev pub Handled : Type 0 → Type 0
Handled F = List (MarketMessage F) × Bool

abbrev pub published_or_raised : {F : Type 0} → Option (MarketMessage F) → Handled F
published_or_raised none = ([], false)
published_or_raised (some m) = (m ∷ [], true)

abbrev pub order_side : String → Option OrderSide
order_side s = if str_eq s "BUY" then some buy else if str_eq s "SELL" then some sell else none

-- `stream == "!forceOrder@arr"`
abbrev is_all_orders : Value → Bool
is_all_orders v = elim (text_of v) [ none ↦ false | some t ↦ str_eq t "!forceOrder@arr" ]

-- A handler calls `data.get`, which raises on data that is no object.
abbrev with_fields : {F : Type 0} → Option Fields → (Fields → Handled F) → Handled F
with_fields none k = ([], false)
with_fields (some payload) k = k payload

module _ {F : Type 0} (py : Numbers F) where
  -- `float(d[key])`
  abbrev number_at : String → Fields → Option F
  number_at key d = do v ← find key d; float_of py v

  -- `_handle_kline`
  unfoldable pub handle_kline : Fields → Option (MarketMessage F)
  handle_kline payload = do
    k ← fields_of (find_or "k" payload (object payload))
    symbol ← text_of (find_or "s" k (find_or "s" payload (text "")))
    interval ← text_of (find_or "i" k (text "1m"))
    open_price ← number_at "o" k
    high ← number_at "h" k
    low ← number_at "l" k
    close ← number_at "c" k
    volume ← number_at "v" k
    t ← find "t" k
    ts ← time_of py t
    some (
        tick (record {
          symbol = symbol;
          interval = interval;
          open_price = open_price;
          high = high;
          low = low;
          close = close;
          volume = volume;
          is_closed = truth py (find_or "x" k (flag false));
          ts = ts;
        }))

  unfoldable pub mark_message : Fields → Option (MarketMessage F)
  mark_message payload = do
    symbol ← text_of (find_or "s" payload (text ""))
    mark_price ← float_of py (find_or "p" payload (number "0"))
    index_price ← float_of py (find_or "i" payload (number "0"))
    ts ← time_of py (find_or "T" payload (number "0"))
    some (mark ts (record { symbol = symbol; mark_price = mark_price; index_price = index_price }))

  unfoldable pub funding_message : Fields → Value → Value → Option (MarketMessage F)
  funding_message payload r t = do
    symbol ← text_of (find_or "s" payload (text ""))
    rate ← float_of py r
    ts ← time_of py t
    some (funding (record { symbol = symbol; funding_time = ts; rate = rate }))

  -- The funding rate, when the frame has both of its fields.
  unfoldable pub handle_funding : Fields → Handled F
  handle_funding payload = elim (find "r" payload) [
    | none ↦ ([], true)
    | some r ↦ elim (find "T" payload) [
      | none ↦ ([], true)
      | some t ↦ published_or_raised (funding_message payload r t)
    ]
  ]

  -- `_handle_mark`: the mark price is published before the funding rate is read.
  unfoldable pub handle_mark : Fields → Handled F
  handle_mark payload = elim (mark_message payload) [
    | none ↦ ([], false)
    | some m ↦ let rest = handle_funding payload in (m ∷ rest.0, rest.1)
  ]

  -- `_handle_liquidation`
  unfoldable pub handle_liquidation : Fields → Option (MarketMessage F)
  handle_liquidation payload = do
    order ← fields_of (find_or "o" payload (object payload))
    symbol ← text_of (find_or "s" order (text ""))
    side_text ← text_of (find_or "S" order (text "BUY"))
    side ← order_side side_text
    price ← float_of py (find_or "p" order (number "0"))
    qty ← float_of py (find_or "q" order (number "0"))
    ts ← time_of py (find_or "T" order (number "0"))
    some (liquidation (record { symbol = symbol; side = side; price = price; qty = qty; ts = ts }))

  -- `_handle_book`
  unfoldable pub handle_book : ℕ → Fields → Option (MarketMessage F)
  handle_book now payload = do
    symbol ← text_of (find_or "s" payload (text ""))
    best_bid ← float_of py (find_or "b" payload (number "0"))
    best_ask ← float_of py (find_or "a" payload (number "0"))
    some (book (record { symbol = symbol; best_bid = best_bid; best_ask = best_ask; ts = now }))

  -- `handle`, where `in` works on the stream.
  unfoldable pub handle_data : ℕ → Value → Option Fields → Handled F
  handle_data now stream payload =
      if has_part stream "@kline_"
      then with_fields payload (λ d. published_or_raised (handle_kline d))
      else if has_part stream "@markPrice"
      then with_fields payload handle_mark
      else if has_part stream "@forceOrder" || is_all_orders stream
      then with_fields payload (λ d. published_or_raised (handle_liquidation d))
      else if has_part stream "@bookTicker"
      then with_fields payload (λ d. published_or_raised (handle_book now d))
      else ([], true)

  unfoldable pub handle_frame : ℕ → Fields → Handled F
  handle_frame now msg =
      let stream = find_or "stream" msg (text "") in
      if is_container stream
      then handle_data now stream (fields_of (find_or "data" msg (object msg)))
      else ([], false)
