-- ===== src/Tests/Trading.antt =====
-- The trades in the database, the routes and the statistics on sample inputs, and a cycle of the news.
use aicrypto_trader.Base.{
  ℕ, String, ◌≡◌, refl, Option, none, some, Bool, true, false, All, length, List, [], ◌∷◌,
}
use aicrypto_trader.Int.{pos}
use aicrypto_trader.Float.{literal, ◌⊕◌}
use aicrypto_trader.Float.Fixed.{Fixed, fixed_float, Fixed-IsExact}
use aicrypto_trader.Dict.{get}
use aicrypto_trader.Bus.Messages.{long, Signal, ExitReason}
use aicrypto_trader.Config.{symbol_list, is_listed}
use aicrypto_trader.Risk.Guards.{check}
use aicrypto_trader.Risk.Guards.Accepted.{check-IsWithinLimits}
use aicrypto_trader.PaperTrade.Account.{equity}
use aicrypto_trader.PaperTrade.Engine.{new_engine}
use aicrypto_trader.PaperTrade.Engine.Run.{Input, run}
use aicrypto_trader.PaperTrade.Engine.Signals.{
  process_signal, entry_price_of, embedded_entry, fallback_entry,
}
use aicrypto_trader.PaperTrade.Engine.Entry.{IsExecutable}
use aicrypto_trader.Storage.{Write, insert_trade_open, update_trade_close}
use aicrypto_trader.Database.{Tables, no_rows, perform, insert_open, has_trade}
use aicrypto_trader.Database.Followed.{Match, trades_of}
use aicrypto_trader.Database.Followed.Runs.{
  AreDistinct, signal_ids, restarted, open_rows_follow_positions,
}
use aicrypto_trader.Api.Routes.{
  SignalRequest, side_of, post_signal, IsFilled, process_signal-post_signal,
}
use aicrypto_trader.Database.Orphans.Each.{IsKeyed}
use aicrypto_trader.PaperTrade.Engine.Ledger.{entries}
use aicrypto_trader.PaperTrade.Engine.Invariant.{realized}
use aicrypto_trader.Api.Stats.{get_stats}
use aicrypto_trader.Api.Stats.Sessions.{get_stats_after_session}
use aicrypto_trader.Api.Stats.Totals.{Change, written, started, changes, AddUp, get_stats-AddUp}
use aicrypto_trader.Agents.Llm.Json.{
  Value, text, list_of, dict_of, no_element, element, no_item, item,
}
use aicrypto_trader.Scraper.{News}
use aicrypto_trader.Scraper.Cycle.{Runner}
use aicrypto_trader.Tests.Samples.{cfg, no_json, fixed, btc, price, fresh}

abbrev one_day : Write Fixed → ℕ
one_day w = 1

abbrev all_taken : Write Fixed → Bool
all_taken w = true

-- A position is opened, and the signal after it is a duplicate.
abbrev open_session : List (Input Fixed)
open_session =
    Input.mark (fixed 0) (price 100)
    ∷ Input.signal (fixed 1) (btc long)
    ∷ Input.signal (fixed 2) (record (btc long) { correlation_id = "c2" })
    ∷ []

open_session_distinct : AreDistinct (signal_ids open_session)
open_session_distinct = ((refl, tt), (tt, tt))

-- An earlier session left a position open.
abbrev left_open : Tables Fixed
left_open =
    perform 1
      (insert_trade_open (record {
        correlation_id = "c0";
        symbol = "ETHUSDT";
        side = long;
        qty = fixed 1;
        entry_price = fixed 50;
        leverage = pos 5;
        sl = fixed 45;
        tp = fixed 60;
        fees = fixed 0;
      }))
      no_rows

left_open_unused : All (λ id. has_trade id left_open.trades ≡ false) (signal_ids open_session)
unfolding perform insert_open has_trade
left_open_unused = (refl, (refl, tt))

open_rows_follow_positions_example :
    let e = (run cfg no_json open_session (new_engine cfg)).1 in
    Match
      (trades_of one_day all_taken (restarted 2 (("ETHUSDT", fixed 52) ∷ []) left_open) e.published)
      e.account.open_positions
open_rows_follow_positions_example =
    open_rows_follow_positions one_day all_taken (λ r. refl) (λ r. refl) cfg no_json 2
      (("ETHUSDT", fixed 52) ∷ []) left_open open_session open_session_distinct left_open_unused

abbrev dumped : Fixed → String
dumped x = "{\"entry\": 101.0}"

abbrev loaded : String → Option Fixed
loaded t = some (fixed 101)

abbrev request : SignalRequest Fixed
request = record {
  symbol = "BTCUSDT";
  side = "LONG";
  size_usd = fixed 50;
  sl = fixed 95;
  tp = fixed 110;
  leverage = pos 5;
  entry = fixed 101;
}

abbrev posted : Signal Fixed
posted = record (btc long) { reasoning = "{\"entry\": 101.0}" }

request_posted : post_signal dumped "c1" request ≡ some posted
unfolding post_signal side_of
request_posted = refl

posted_executes : IsExecutable cfg loaded posted fresh
unfolding entry_price_of embedded_entry fallback_entry get check symbol_list is_listed equity
posted_executes = record {
  calm = refl;
  within = (check-IsWithinLimits cfg 0 (equity fresh.account) posted).0 refl;
  priced = refl;
  leveraged = refl;
}

process_signal-post_signal_example :
    IsFilled dumped loaded request posted fresh (process_signal cfg loaded (fixed 1) posted fresh)
unfolding get
process_signal-post_signal_example =
    process_signal-post_signal dumped loaded cfg (fixed 1) "c1" request posted fresh refl refl
      request_posted refl posted_executes

-- A trade is opened and closed with a loss, another one is left to the next session.
abbrev two_sessions : List (Change Fixed)
two_sessions =
    written 1 (
      insert_trade_open (record {
        correlation_id = "c1";
        symbol = "BTCUSDT";
        side = long;
        qty = fixed 1;
        entry_price = fixed 100;
        leverage = pos 5;
        sl = fixed 95;
        tp = fixed 110;
        fees = fixed 0;
      }))
    ∷ written 2 (
        update_trade_close (record {
          correlation_id = "c1";
          exit_price = fixed 95;
          exit_reason = ExitReason.sl;
          realized_pnl = literal 0 0;
          funding_paid = fixed 0;
          exit_fees = fixed 0;
        }))
    ∷ started 3 []
    ∷ []

get_stats-AddUp_example : AddUp (changes two_sessions no_rows).trades
get_stats-AddUp_example = get_stats-AddUp Fixed-IsExact two_sessions

abbrev found_json : Value
found_json = list_of (element (dict_of (item "title" (text "ETF flows") no_item)) no_element)

abbrev runner : Runner Fixed
runner = record {
  symbols = "BTCUSDT" ∷ [];
  min_relevance = fixed 0;
  score_model = "m";
  search_model = "s";
  lower = λ s. s;
  loads = λ t. some found_json;
  show = λ v. "ETF flows";
  search = λ symbol. some "[1]";
  outside = record {
    takes_item = λ a n. true;
    takes_row = λ s n. true;
    takes_result = λ m n. false;
  };
  answer = λ a. none;
}

abbrev no_news : News Fixed
no_news = record { items = []; last_id = 0; sentiments = []; published = [] }

left_open-IsKeyed : IsKeyed left_open.trades
unfolding perform insert_open has_trade
left_open-IsKeyed = (refl, tt)

get_stats_after_session_example :
    let start = restarted 2 (("ETHUSDT", fixed 52) ∷ []) left_open in
    let e = (run cfg no_json open_session (new_engine cfg)).1 in
    let stats = get_stats (trades_of one_day all_taken start e.published) in
    (stats.open_count ≡ length e.account.open_positions)
    × (stats.total_pnl ≡ (get_stats start.trades).total_pnl ⊕ realized (entries e.published))
get_stats_after_session_example =
    get_stats_after_session one_day all_taken (λ r. refl) (λ r. refl) cfg no_json Fixed-IsExact 2
      (("ETHUSDT", fixed 52) ∷ []) left_open open_session left_open-IsKeyed open_session_distinct
      left_open_unused
