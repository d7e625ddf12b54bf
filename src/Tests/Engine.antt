-- ===== src/Tests/Engine.antt =====
-- The engine on sample inputs.
use aicrypto_trader.Base.{String, ◌≡◌, refl, [], ◌∷◌, true}
use aicrypto_trader.Dict.{get, put, pop}
use aicrypto_trader.Float.{literal, ◌⊕◌}
use aicrypto_trader.Float.Fixed.{Fixed, fixed_float, Fixed-IsExact}
use aicrypto_trader.Config.{symbol_list, is_listed}
use aicrypto_trader.Bus.Messages.{long, short, close_reason_of}
use aicrypto_trader.Risk.Breakers.{update_pnl, update_equity}
use aicrypto_trader.Risk.Guards.{check}
use aicrypto_trader.Risk.Guards.Accepted.{check-IsWithinLimits}
use aicrypto_trader.PaperTrade.Math.{
  calc_qty, calc_isolated_margin, calc_liq_price, calc_unrealized_pnl, calc_realized_pnl,
  calc_entry_fee, calc_exit_fee,
}
use aicrypto_trader.PaperTrade.Account.{unrealized_pnl, equity, open_position, close, update_mark}
use aicrypto_trader.PaperTrade.Account.Cash.{reserved}
use aicrypto_trader.PaperTrade.Engine.{
  done, is_tripped, publish_position_update, book_closure, announce_closure, close_found,
  close_position,
}
use aicrypto_trader.PaperTrade.Engine.Signals.{
  embedded_entry, fallback_entry, entry_price_of, new_position, book_fill, fill, pass_guards,
  pass_breakers, flip, process_signal,
}
use aicrypto_trader.PaperTrade.Engine.Marks.{
  adverse_hit, favourable_hit, exit_of, mark_position, process_mark,
}
use aicrypto_trader.PaperTrade.Engine.Run.{Input, handle, run}
use aicrypto_trader.PaperTrade.Engine.Ledger.{opened, closed, entries, view, Moves}
use aicrypto_trader.PaperTrade.Engine.Refines.{handle-Moves}
use aicrypto_trader.PaperTrade.Engine.Invariant.{openings, realized, IsOrderly}
use aicrypto_trader.PaperTrade.Engine.Safety.{
  run-IsOrderly, run_accounts_for_all_money, run_daily_sum, run_halted,
}
use aicrypto_trader.PaperTrade.Engine.Exits.{IsUnannounced}
use aicrypto_trader.PaperTrade.Engine.Handlers.{
  process_signal_flip_raises, process_mark_expiry_raises,
}
use aicrypto_trader.PaperTrade.Engine.Entry.{
  IsExecutable, IsExecuted, IsDeclined, process_signal_executes, process_signal_declines,
}
use aicrypto_trader.Agents.Portfolio.Mirror.{IsMirrored}
use aicrypto_trader.Agents.Portfolio.Mirror.Runs.{mirror_after_run}
use aicrypto_trader.Tests.Samples.{
  cfg, no_json, fixed, btc, price, half_btc, fresh, holding, halted, session,
}

session_runs :
    ((run cfg no_json session fresh).0 ≡ done)
    × (entries (run cfg no_json session fresh).1.published
        ≡ closed "BTCUSDT" (literal 4958 3) ∷ opened "BTCUSDT" ∷ [])
unfolding run handle process_signal process_mark mark_position exit_of adverse_hit favourable_hit
    close_position close_found announce_closure book_closure publish_position_update flip
    pass_breakers pass_guards fill book_fill new_position entry_price_of embedded_entry
    fallback_entry calc_qty calc_isolated_margin calc_liq_price calc_unrealized_pnl
    calc_realized_pnl calc_entry_fee calc_exit_fee unrealized_pnl equity open_position close
    update_mark check symbol_list is_listed update_pnl update_equity close_reason_of get put pop
session_runs = (refl, refl)

run-IsOrderly_example : IsOrderly 5 (view (run cfg no_json session fresh).1)
run-IsOrderly_example = run-IsOrderly cfg no_json session

run_accounts_for_all_money_example :
    let e = (run cfg no_json session fresh).1 in
    e.account.balance ⊕ reserved e.account.open_positions
    ≡ cfg.risk.starting_balance_usd ⊕ realized (entries e.published)
run_accounts_for_all_money_example = run_accounts_for_all_money cfg no_json Fixed-IsExact session

run_daily_sum_example :
    let e = (run cfg no_json session fresh).1 in
    e.daily_loss.cumulative_pnl ≡ realized (entries e.published)
run_daily_sum_example = run_daily_sum cfg no_json session (tt, (tt, (tt, (tt, tt))))

run_halted_example :
    let e = (run cfg no_json session halted).1 in
    (is_tripped e ≡ true)
    × ((k : String) → openings k (entries e.published) ≡ openings {F = Fixed} k [])
run_halted_example = run_halted cfg no_json session halted (tt, (tt, (tt, (tt, tt)))) refl

handle-Moves_example :
    Moves 5 (view fresh) (view (handle cfg no_json (Input.signal (fixed 1) (btc long)) fresh).1)
handle-Moves_example = handle-Moves cfg no_json (Input.signal (fixed 1) (btc long)) fresh tt

process_signal_flip_raises_example :
    IsUnannounced cfg half_btc "BTCUSDT"
      (fixed 100)
      holding
      (process_signal cfg no_json (fixed 5) (btc short) holding)
unfolding get
process_signal_flip_raises_example =
    process_signal_flip_raises cfg no_json (fixed 5) (btc short) holding half_btc refl refl

process_mark_expiry_raises_example :
    IsUnannounced cfg half_btc "BTCUSDT"
      (fixed 100)
      holding
      (process_mark cfg (fixed 30_000) (price 100) holding)
unfolding get
process_mark_expiry_raises_example =
    process_mark_expiry_raises cfg (fixed 30_000) (price 100) holding half_btc refl refl

fresh_executes : IsExecutable cfg no_json (btc long) fresh
unfolding entry_price_of embedded_entry fallback_entry get check symbol_list is_listed equity
fresh_executes = record {
  calm = refl;
  within = (check-IsWithinLimits cfg 0 (equity fresh.account) (btc long)).0 refl;
  priced = refl;
  leveraged = refl;
}

process_signal_executes_example :
    IsExecuted cfg no_json (btc long) fresh (process_signal cfg no_json (fixed 1) (btc long) fresh)
unfolding get
process_signal_executes_example =
    process_signal_executes cfg no_json (fixed 1) (btc long) fresh refl fresh_executes

halted_unfit : ¬ IsExecutable cfg no_json (btc long) halted
halted_unfit x = cc (x.calm)

process_signal_declines_example :
    IsDeclined cfg no_json
      (btc long)
      halted
      (process_signal cfg no_json (fixed 1) (btc long) halted)
unfolding get
process_signal_declines_example =
    process_signal_declines cfg no_json (fixed 1) (btc long) halted refl halted_unfit

mirror_after_run_example : IsMirrored (run cfg no_json session fresh).1
mirror_after_run_example = mirror_after_run cfg no_json session session_runs.0
