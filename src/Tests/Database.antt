-- ===== src/Tests/Database.antt =====
-- The tables and the prompts on sample rows.
use aicrypto_trader.Base.{ℕ, String, ◌≡◌, refl, Option, none, some, true, List, [], ◌∷◌}
use aicrypto_trader.Int.{pos}
use aicrypto_trader.Dict.{Dict}
use aicrypto_trader.Float.Fixed.{Fixed, fixed_float}
use aicrypto_trader.Bus.Messages.{long, ExitReason}
use aicrypto_trader.Learning.{Cache}
use aicrypto_trader.Storage.{insert_rl_tuple, insert_trade_open, update_trade_close}
use aicrypto_trader.Database.{Trade, Json, text, no_rows, has_trade}
use aicrypto_trader.Database.Orphans.Each.{IsKeyed}
use aicrypto_trader.Database.Joined.{Joined, get_recent_closed_trades}
use aicrypto_trader.Database.Prompts.{PromptRow}
use aicrypto_trader.Learning.Evolution.{Prompts, EvolutionOutside}
use aicrypto_trader.Learning.Evolution.Cycle.{run_once}
use aicrypto_trader.Learning.Evolution.Starved.{
  Statement, writes, rewards, execute_all, evolution_never_rewrites,
}
use aicrypto_trader.Tests.Samples.{fixed}

abbrev trade : String → Option ℕ → Trade Fixed
trade id closed = record {
  correlation_id = id;
  symbol = "BTCUSDT";
  side = long;
  qty = fixed 1;
  entry_price = fixed 100;
  leverage = pos 5;
  sl = fixed 95;
  tp = fixed 110;
  fees = fixed 0;
  opened_ts = 1;
  exit_price = none;
  exit_reason = none;
  realized_pnl = none;
  funding_paid = fixed 0;
  closed_ts = closed;
}

abbrev two_trades : List (Trade Fixed)
two_trades = trade "c1" none ∷ trade "c2" (some 5) ∷ []

abbrev known_prices : Dict Fixed
known_prices = ("BTCUSDT", fixed 103) ∷ []

two_trades-IsKeyed : IsKeyed two_trades
unfolding has_trade
two_trades-IsKeyed = (refl, (refl, tt))

abbrev prompt_rows : List (PromptRow Fixed)
prompt_rows =
    record {
      agent_name = "risk";
      version = 1;
      system_prompt = "old";
      perf_score = none;
      active = true;
    }
    ∷ []

abbrev warm : Cache
warm = ("risk", "old") ∷ []

abbrev shown : Json Fixed → String
shown j = "number"

abbrev teaching : EvolutionOutside Fixed
teaching = record {
  four_digits = λ x. "0.0000";
  teacher = λ c. some (record { improved_prompt = some "better"; perf_score = none });
}

abbrev prompts : Prompts Fixed
prompts = record { rows = prompt_rows; cache = warm }

abbrev one_trade : List (Statement Fixed)
one_trade =
    writes 1 (
      insert_trade_open (record {
        correlation_id = "c1";
        symbol = "BTCUSDT";
        side = long;
        qty = fixed 1;
        entry_price = fixed 100;
        leverage = pos 5;
        sl = fixed 95;
        tp = fixed 110;
        fees = fixed 0;
      }))
    ∷ writes 1 (
        insert_rl_tuple (record {
          symbol = "BTCUSDT";
          side = long;
          qty = fixed 1;
          entry_price = fixed 100;
          leverage = pos 5;
          sl = fixed 95;
          tp = fixed 110;
        }))
    ∷ writes 2 (
        update_trade_close (record {
          correlation_id = "c1";
          exit_price = fixed 110;
          exit_reason = ExitReason.tp;
          realized_pnl = fixed 10;
          funding_paid = fixed 0;
          exit_fees = fixed 0;
        }))
    ∷ rewards "c1" (fixed 1)
    ∷ []

evolution_never_rewrites_example :
    let d = execute_all shown one_trade no_rows in
    run_once teaching (get_recent_closed_trades shown 50 d.trades d.rl_tuples) prompts ≡ prompts
evolution_never_rewrites_example = evolution_never_rewrites shown teaching one_trade 50 prompts

abbrev lesson : Joined Fixed
lesson = record {
  correlation_id = "c1";
  symbol = "BTCUSDT";
  side = long;
  realized_pnl = some (fixed 3);
  opened_ts = 1;
  closed_ts = 2;
  exit_reason = none;
  reward = fixed 1;
  action = ("agent", text "quant") ∷ [];
}
