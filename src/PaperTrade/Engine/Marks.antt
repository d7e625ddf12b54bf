-- ===== src/PaperTrade/Engine/Marks.antt =====
-- `_process_mark` of papertrade/engine.py.
use aicrypto_trader.Base.{Option, none, some, Bool, if◌then◌else◌}
use aicrypto_trader.Dict.{get, put}
use aicrypto_trader.Float.{Float, ◌⊖◌, le, lt}
use aicrypto_trader.Config.{Settings}
use aicrypto_trader.Bus.Messages.{Side, long, short, MarkPrice, ExitReason}
use aicrypto_trader.PaperTrade.Account.{OpenPosition, update_mark}
use aicrypto_trader.PaperTrade.Engine.{
  Engine, done, Step, publish_position_update, close_position, max_hold_seconds,
}

module _ {F : Type 0} ⦃fl : Float F⦄ where
  -- The price has fallen to the level for a long position, or risen to it for a short one.
  unfoldable pub adverse_hit : Side → F → F → Bool
  adverse_hit long mark level = le mark level
  adverse_hit short mark level = le level mark

  unfoldable pub favourable_hit : Side → F → F → Bool
  favourable_hit long mark level = le level mark
  favourable_hit short mark level = le mark level

  -- The exit that a mark price triggers, with its price: the first of the four tests that holds.
  unfoldable pub exit_of : F → F → OpenPosition F → Option (ExitReason × F)
  exit_of now mark p =
      if lt max_hold_seconds (now ⊖ p.opened_at)
      then some (ExitReason.max_hold, mark)
      else if adverse_hit p.side mark p.liq_price
      then some (ExitReason.liq, p.liq_price)
      else if adverse_hit p.side mark p.sl
      then some (ExitReason.sl, p.sl)
      else if favourable_hit p.side mark p.tp
      then some (ExitReason.tp, p.tp)
      else none

  unfoldable pub mark_position : Settings F → F → MarkPrice F → OpenPosition F → Engine F → Step F
  mark_position cfg now mark p e = elim (exit_of now mark.mark_price p) [
    | none ↦ (done, publish_position_update mark.symbol e)
    | some (reason, price) ↦ close_position cfg mark.symbol price reason e
  ]

  abbrev pub note_mark : MarkPrice F → Engine F → Engine F
  note_mark mark e = record e { last_marks = put e.last_marks mark.symbol mark.mark_price }

  unfoldable pub process_mark : Settings F → F → MarkPrice F → Engine F → Step F
  process_mark cfg now mark e =
      let noted = note_mark mark e in
      elim (get e.account.open_positions mark.symbol) [
        | none ↦ (done, noted)
        | some p ↦
            mark_position cfg now mark (record p { mark_price = mark.mark_price })
              (record noted { account = update_mark e.account mark.symbol mark.mark_price })
      ]
