-- ===== src/Tests/Market.antt =====
-- Frames, pages, simulated trades and scores on sample inputs.
use Prim.Native.String.{String}
use aicrypto_trader.Base.{
  length, ltb, if◌then◌else◌, ℕ, zero, suc, ◌≡◌, refl, Option, none, some, Bool, true, false, List,
  [], ◌∷◌, take, arith,
}
use aicrypto_trader.Float.Fixed.{Fixed, fixed_float}
use aicrypto_trader.Backtest.Paging.{fetch_pages, bars_from, fetch_pages_ends}
use aicrypto_trader.Backtest.StopTake.{Bar}
use aicrypto_trader.Feed.Frames.{Fields, Numbers, empty, field, text, number, object}
use aicrypto_trader.Feed.Exchange.{Event, marked}
use aicrypto_trader.Feed.Stored.{MarketTables}
use aicrypto_trader.Ml.Features.{FeatureOutside, build_features, build_sequence}
use aicrypto_trader.Ml.Features.Shape.{AllVectors, features-IsShaped}
use aicrypto_trader.Scraper.{RawScore}
use aicrypto_trader.Tests.Samples.{fixed}

-- Three bars of an hour each, in pages of two.
abbrev hours : List ℕ
hours = 10 ∷ 20 ∷ 30 ∷ []

abbrev exchange : ℕ → List ℕ
exchange t = take 2 (bars_from (λ n. n) t hours)

fetch_pages_ends_example : fetch_pages (λ n. n) exchange 2 35 31 5 [] ≡ some hours
fetch_pages_ends_example =
    fetch_pages_ends (λ n. n) exchange 2 5 35 hours (omega arith)
      ((omega arith, (omega arith, tt)), ((omega arith, tt), (tt, tt)))
      (omega arith, (omega arith, (omega arith, tt))) (λ t. refl)

abbrev bar : ℕ → ℕ → ℕ → Bool → Bar Fixed
bar low high close signal = record {
  high = fixed high;
  low = fixed low;
  close = fixed close;
  long_signal = signal;
  short_signal = false;
}

abbrev four_bars : List (Bar Fixed)
four_bars =
    bar 99 101 100 true ∷ bar 99 102 101 false ∷ bar 101 106 105 true ∷ bar 90 105 91 false ∷ []

-- Every number reads as 100, and every time as 5.
abbrev hundreds : Numbers Fixed
hundreds = record {
  parse = λ t. some (fixed 100);
  amount = λ n. some (fixed 100);
  is_zero = λ n. false;
  stamp = λ n. some 5;
}

abbrev mark_frame : Fields
mark_frame = field "stream" (text "btcusdt@markPrice") (
    field "data"
      (object (
        field "s" (text "BTCUSDT")
          (field "p" (text "100") (field "r" (text "0.0001") (field "T" (number "5") empty)))))
      empty)

abbrev no_market : MarketTables Fixed
no_market = record {
  klines = [];
  mark_prices = [];
  funding_rates = [];
  liquidations = [];
  book_tickers = [];
}

-- Numbers written as so many strokes.
strokes : ℕ → String
strokes zero = String.[]
strokes (suc n) = String.◌∷◌ "I" (strokes n)

count_strokes : String → ℕ
count_strokes String.[] = zero
count_strokes (String.◌∷◌ c s) = suc (count_strokes s)

abbrev tallies : Numbers ℕ
tallies = record {
  parse = λ t. some (count_strokes t);
  amount = λ n. some (count_strokes n);
  is_zero = λ n. false;
  stamp = λ n. some (count_strokes n);
}

abbrev marked_btc : Event ℕ
marked_btc = marked 5 (record { symbol = "BTCUSDT"; mark_price = 100; index_price = 99 }) 1

abbrev loud : String → Option (RawScore Fixed)
loud s = some (record { relevance = some (fixed 7); sentiment = none; summary = none })

-- The database has no bars for the first request and fails at the second.
abbrev poor : FeatureOutside Fixed
poor = record {
  fetch_klines = λ s n. if ltb n 210 then some [] else none;
  fetch_news = λ s. none;
  indicators = λ ks. none;
  clip = λ x lo hi. x;
  sign = λ x. x;
  clean = λ x. x;
}

features-IsShaped_example :
    (length (build_features poor "BTCUSDT") ≡ 25)
    × (length (build_sequence poor "BTCUSDT" 30) ≡ 30)
    × AllVectors (build_sequence poor "BTCUSDT" 30)
features-IsShaped_example = features-IsShaped poor "BTCUSDT" 30
