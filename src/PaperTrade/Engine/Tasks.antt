-- ===== src/PaperTrade/Engine/Tasks.antt =====
-- The two handlers of papertrade/engine.py as tasks of one event loop.
-- A task runs alone until it awaits `bus.publish`; there the loop may run the other task, or the
-- reset of api/routes/circuit.py, before it goes on. `Engine.publish` is the call: the message is
-- made, and the engine changed, before the task is suspended, and what follows is in the task.
pub mod System
pub mod Segments
pub mod Orderly
pub mod Lag
pub mod Whole
use aicrypto_trader.Base.{String, Option, none, some, length, if◌then◌else◌}
use aicrypto_trader.Dict.{get}
use aicrypto_trader.Float.{Float}
use aicrypto_trader.Config.{Settings}
use aicrypto_trader.Bus.Messages.{
  Signal, MarkPrice, side_eq, breaker_tripped, daily_loss_or_drawdown, ExitReason,
}
use aicrypto_trader.Risk.Guards.{allowed, refused, check}
use aicrypto_trader.PaperTrade.Result.{ok, err}
use aicrypto_trader.PaperTrade.Math.{calc_exit_fee}
use aicrypto_trader.PaperTrade.Account.{OpenPosition, equity, close, update_mark}
use aicrypto_trader.PaperTrade.Engine.{
  Engine, done, raised, Step, is_tripped, publish_position_update, publish_closure, count_closure,
  publish_trip, announce_closure,
}
use aicrypto_trader.PaperTrade.Engine.Signals.{
  entry_price_of, new_position, execute_fill, publish_veto, mark_or,
}
use aicrypto_trader.PaperTrade.Engine.Marks.{exit_of, note_mark}

-- Where a task is: at its next message, dead after an exception, or in an awaited publication. In
-- `_close_position` that is the one of `trade.closed` (with the net profit that is not counted yet),
-- of `circuit.tripped` or of the last update; a flip goes on with its signal. After a fill the
-- position of the symbol is still to be published; after `last_publish` nothing follows.
pub data Task (F : Type 0) : Type 0 where
  idle : Task F
  dead : Task F
  after_closed : OpenPosition F → String → F → ExitReason → F → Option (Signal F) → Task F
  after_tripped : OpenPosition F → String → F → ExitReason → Option (Signal F) → Task F
  after_update : Option (Signal F) → Task F
  after_executed : String → Task F
  last_publish : Task F

abbrev pub Segment : Type 0 → Type 0
Segment F = Task F × Engine F

module _ {F : Type 0} ⦃fl : Float F⦄ where
  -- `_close_position` up to the publication of `trade.closed`.
  unfoldable pub close_segment :
      Settings F → String → F → ExitReason → Option (Signal F) → Engine F → Segment F
  close_segment cfg symbol price reason next e = elim (get e.account.open_positions symbol) [
    | none ↦ (dead, e)
    | some p ↦
        let fee = calc_exit_fee p.qty price cfg.fees.taker_rate in
        elim (close e.account symbol price fee) [
          | none ↦ (dead, e)
          | some (net, account) ↦ (
            after_closed p symbol price reason net next,
            publish_closure p symbol price reason fee net (record e { account = account }),
          )
        ]
  ]

  abbrev pub after_announcing : Option (Signal F) → Step F → Segment F
  after_announcing next (done, e) = (after_update next, e)
  after_announcing next (raised x, e) = (dead, e)

  -- The end of `_close_position`.
  unfoldable pub announce_segment :
      OpenPosition F → String → F → ExitReason → Option (Signal F) → Engine F → Segment F
  announce_segment p symbol price reason next e =
      after_announcing next (announce_closure p symbol price reason e)

  -- `_close_position` after the publication of `trade.closed`.
  unfoldable pub count_segment :
      Settings F
      → OpenPosition F
      → String
      → F
      → ExitReason
      → F
      → Option (Signal F)
      → Engine F
      → Segment F
  count_segment cfg p symbol price reason net next e =
      let updated = count_closure net e in
      if updated.daily_loss.state.tripped
      then (after_tripped p symbol price reason next, publish_trip cfg updated)
      else announce_segment p symbol price reason next updated

  -- Step 4 of `_process_signal` up to the publication of `trade.executed`.
  unfoldable pub fill_segment :
      Settings F → (String → Option F) → F → Signal F → Engine F → Segment F
  fill_segment cfg json_entry now signal e =
      elim (new_position cfg now signal (entry_price_of json_entry e.last_marks signal)) [
        | ok p ↦ (after_executed signal.symbol, execute_fill signal p e)
        | err x ↦ (dead, e)
      ]

  -- Step 3.
  unfoldable pub guard_segment :
      Settings F → (String → Option F) → F → Signal F → Engine F → Segment F
  guard_segment cfg json_entry now signal e =
      elim (check cfg (length e.account.open_positions) (equity e.account) signal) [
        | allowed ↦ fill_segment cfg json_entry now signal e
        | refused reason name ↦ (last_publish, publish_veto signal reason name e)
      ]

  -- Steps 2 and 3 of `_process_signal`.
  unfoldable pub check_segment :
      Settings F → (String → Option F) → F → Signal F → Engine F → Segment F
  check_segment cfg json_entry now signal e =
      if is_tripped e
      then (last_publish, publish_veto signal breaker_tripped daily_loss_or_drawdown e)
      else guard_segment cfg json_entry now signal e

  -- `_process_signal` up to its first publication.
  unfoldable pub start_signal :
      Settings F → (String → Option F) → F → Signal F → Engine F → Segment F
  start_signal cfg json_entry now signal e = elim (get e.account.open_positions signal.symbol) [
    | none ↦ check_segment cfg json_entry now signal e
    | some existing ↦
        if side_eq existing.side signal.side
        then (idle, e)
        else close_segment cfg signal.symbol
            (mark_or (get e.last_marks signal.symbol) existing.entry_price)
            ExitReason.direction_flip (some signal) e
  ]

  unfoldable pub mark_segment : Settings F → F → MarkPrice F → OpenPosition F → Engine F → Segment F
  mark_segment cfg now mark p e = elim (exit_of now mark.mark_price p) [
    | none ↦ (last_publish, publish_position_update mark.symbol e)
    | some (reason, price) ↦ close_segment cfg mark.symbol price reason none e
  ]

  -- `_process_mark` up to its first publication.
  unfoldable pub start_mark : Settings F → F → MarkPrice F → Engine F → Segment F
  start_mark cfg now mark e =
      let noted = note_mark mark e in
      elim (get e.account.open_positions mark.symbol) [
        | none ↦ (idle, noted)
        | some p ↦
            mark_segment cfg now mark (record p { mark_price = mark.mark_price })
              (record noted { account = update_mark e.account mark.symbol mark.mark_price })
      ]

  -- A suspended task goes on at the time `now`.
  unfoldable pub resume : Settings F → (String → Option F) → F → Task F → Engine F → Segment F
  resume cfg json_entry now idle e = (idle, e)
  resume cfg json_entry now dead e = (dead, e)
  resume cfg json_entry now (after_closed p symbol price reason net next) e =
      count_segment cfg p symbol price reason net next e
  resume cfg json_entry now (after_tripped p symbol price reason next) e =
      announce_segment p symbol price reason next e
  resume cfg json_entry now (after_update none) e = (idle, e)
  resume cfg json_entry now (after_update (some signal)) e =
      check_segment cfg json_entry now signal e
  resume cfg json_entry now (after_executed symbol) e =
      (last_publish, publish_position_update symbol e)
  resume cfg json_entry now last_publish e = (idle, e)
