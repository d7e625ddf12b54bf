-- ===== src/PaperTrade/Engine/Handlers.antt =====
-- What `_process_signal` and `_process_mark` do to the position of their symbol, on every branch.
use aicrypto_trader.Base.{String, ◌≡◌, refl, Option, none, some, true, false, ◌∷◌}
use aicrypto_trader.Dict.{get, get-put_self}
use aicrypto_trader.Float.{Float, ◌⊖◌, lt}
use aicrypto_trader.Config.{Settings}
use aicrypto_trader.Bus.Messages.{side_eq, ExitReason, MarkPrice, Signal, close_reason_of}
use aicrypto_trader.PaperTrade.Result.{Fault, validation_error}
use aicrypto_trader.PaperTrade.Math.{calc_exit_fee, calc_realized_pnl}
use aicrypto_trader.PaperTrade.Account.{OpenPosition, Account, update_mark}
use aicrypto_trader.PaperTrade.Engine.{
  Engine, done, raised, Step, and_then, max_hold_seconds, close_position,
}
use aicrypto_trader.PaperTrade.Engine.Signals.{flip, mark_or, process_signal, pass_breakers}
use aicrypto_trader.PaperTrade.Engine.Marks.{exit_of, mark_position, process_mark}
use aicrypto_trader.PaperTrade.Engine.Ledger.{entries, closed}
use aicrypto_trader.PaperTrade.Engine.Exits.{
  IsInside, ExitFits, IsUnannounced, close_position-IsUnannounced,
}

module _ {F : Type 0} ⦃fl : Float F⦄ (cfg : Settings F) where
  and_then_raised :
      (r : Step F) (k : Engine F → Step F) (x : Fault) → r.0 ≡ raised x → and_then r k ≡ r
  and_then_raised (done, e) k x h = absurd (cc h)
  and_then_raised (raised y, e) k x h = refl

  -- A signal against an open position of its symbol always raises: the position is closed at the last
  -- mark price of the symbol, or at its entry price if there is none, the closure is published as a
  -- trade, but no position update is, and no position of the other side is opened.
  pub process_signal_flip_raises :
      (json_entry : String → Option F) (now : F) (s : Signal F) (e : Engine F)
      (old : OpenPosition F)
      → get e.account.open_positions s.symbol ≡ some old
      → side_eq old.side s.side ≡ false
      → IsUnannounced cfg old s.symbol
          (mark_or (get e.last_marks s.symbol) old.entry_price)
          e
          (process_signal cfg json_entry now s e)
  unfolding process_signal flip close_reason_of
  process_signal_flip_raises json_entry now s e old h opposite =
      let x = mark_or (get e.last_marks s.symbol) old.entry_price in
      let booked =
        close_position-IsUnannounced cfg old s.symbol x ExitReason.direction_flip e h refl in
      rw (h, process_signal)
        (rw opposite (
          rw
            (and_then_raised (close_position cfg s.symbol x ExitReason.direction_flip e)
              (pass_breakers cfg json_entry now s) validation_error (booked.0))
            booked))

  -- A signal of the side that its symbol already holds changes nothing and publishes nothing.
  pub process_signal_duplicate :
      (json_entry : String → Option F) (now : F) (s : Signal F) (e : Engine F)
      (old : OpenPosition F)
      → get e.account.open_positions s.symbol ≡ some old
      → side_eq old.side s.side ≡ true
      → process_signal cfg json_entry now s e ≡ (done, e)
  unfolding process_signal flip
  process_signal_duplicate json_entry now s e old h same = rw (h, process_signal) (rw same)

  pub get-update_mark :
      (a : Account F) (s : String) (mark : F) (p : OpenPosition F)
      → get a.open_positions s ≡ some p
      → get (update_mark a s mark).open_positions s ≡ some (record p { mark_price = mark })
  unfolding update_mark
  get-update_mark a s mark p h =
      rw (h, update_mark) (get-put_self a.open_positions s (record p { mark_price = mark }))

  exit_of-expired :
      (now mark : F) (p : OpenPosition F)
      → lt max_hold_seconds (now ⊖ p.opened_at) ≡ true
      → exit_of now mark p ≡ some (ExitReason.max_hold, mark)
  unfolding exit_of
  exit_of-expired now mark p h = rw h

  -- A mark price for a position that has been held for more than the maximal time always raises: the
  -- position is closed at the mark price, the closure is published as a trade, but no position update
  -- is.
  pub process_mark_expiry_raises :
      (now : F) (m : MarkPrice F) (e : Engine F) (p : OpenPosition F)
      → get e.account.open_positions m.symbol ≡ some p
      → lt max_hold_seconds (now ⊖ p.opened_at) ≡ true
      → IsUnannounced cfg p m.symbol m.mark_price e (process_mark cfg now m e)
  unfolding process_mark mark_position close_reason_of
  process_mark_expiry_raises now m e p h expired =
      rw (h, process_mark)
        (rw
          (
            exit_of-expired now m.mark_price (record p { mark_price = m.mark_price }) expired,
            mark_position,
          )
          (close_position-IsUnannounced cfg (record p { mark_price = m.mark_price }) m.symbol
            m.mark_price ExitReason.max_hold _ (get-update_mark e.account m.symbol m.mark_price p h)
            refl))

  -- The position `p` is still open, at the new mark price, and no trade was published.
  abbrev pub IsKept : OpenPosition F → F → F → String → Engine F → Engine F → Type 0
  IsKept p now mark s e e' =
      (lt max_hold_seconds (now ⊖ p.opened_at) ≡ false)
      × IsInside p.side mark p
      × (get e'.account.open_positions s ≡ some (record p { mark_price = mark }))
      × (entries e'.published ≡ entries e.published)

  -- The position `p` was closed for a reason and at a price that fit the mark price, and one trade
  -- was published, with the net profit at that price.
  abbrev pub IsEnded : OpenPosition F → F → F → String → Engine F → Engine F → Type 0
  IsEnded p now mark s e e' =
      (r : ExitReason) × (x : F) × ExitFits now mark p r x
      × (get e'.account.open_positions s ≡ none)
      × (entries e'.published
          ≡ closed s (
              calc_realized_pnl p.qty p.entry_price x p.side
              ⊖ p.fees
              ⊖ calc_exit_fee p.qty x cfg.fees.taker_rate)
            ∷ entries e.published)
