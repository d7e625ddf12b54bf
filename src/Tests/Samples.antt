-- ===== src/Tests/Samples.antt =====
-- Sample settings, signals and prices, in fixed-point numbers.
use aicrypto_trader.Base.{ℕ, String, Option, none, List, [], ◌∷◌, true}
use aicrypto_trader.Int.{pos}
use aicrypto_trader.Float.{literal}
use aicrypto_trader.Float.Fixed.{Fixed, fixed_float}
use aicrypto_trader.Config.{Settings, default_settings}
use aicrypto_trader.Bus.Messages.{Side, long, Signal, MarkPrice}
use aicrypto_trader.PaperTrade.Account.{OpenPosition}
use aicrypto_trader.PaperTrade.Engine.{Engine, new_engine}
use aicrypto_trader.PaperTrade.Engine.Run.{Input}

abbrev pub cfg : Settings Fixed
cfg = default_settings

-- No text holds an entry price.
abbrev pub no_json : String → Option Fixed
no_json t = none

abbrev pub fixed : ℕ → Fixed
fixed n = literal n 0

abbrev pub btc : Side → Signal Fixed
btc side = record {
  correlation_id = "c1";
  symbol = "BTCUSDT";
  side = side;
  size_usd = fixed 50;
  sl = fixed 95;
  tp = fixed 110;
  leverage = pos 5;
  reasoning = "trend";
}

abbrev pub price : ℕ → MarkPrice Fixed
price n = record { symbol = "BTCUSDT"; mark_price = fixed n; index_price = fixed n }

-- The position of 0.5 BTC that a signal at 100 opens, at the time 0.
abbrev pub half_btc : OpenPosition Fixed
half_btc = record {
  symbol = "BTCUSDT";
  side = long;
  qty = literal 5 1;
  entry_price = fixed 100;
  leverage = pos 5;
  sl = fixed 95;
  tp = fixed 110;
  isolated_margin = fixed 10;
  liq_price = literal 804 1;
  fees = literal 2 2;
  correlation_id = "c1";
  mark_price = fixed 0;
  funding_paid = fixed 0;
  opened_at = fixed 0;
}

abbrev pub fresh : Engine Fixed
fresh = new_engine cfg

-- An engine that holds half a BTC.
abbrev pub holding : Engine Fixed
holding = record fresh {
  account = record { balance = literal 98_998 2; open_positions = ("BTCUSDT", half_btc) ∷ [] };
}

abbrev pub halted : Engine Fixed
halted = record fresh {
  max_dd = record (fresh.max_dd) { state = record (fresh.max_dd.state) { tripped = true } };
}

-- A position is opened at the mark price 100 and closed by its take profit at 111.
abbrev pub session : List (Input Fixed)
session =
    Input.mark (fixed 0) (price 100)
    ∷ Input.signal (fixed 1) (btc long)
    ∷ Input.mark (fixed 2) (price 105)
    ∷ Input.mark (fixed 3) (price 111)
    ∷ []
