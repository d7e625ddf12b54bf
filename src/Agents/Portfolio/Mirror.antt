-- ===== src/Agents/Portfolio/Mirror.antt =====
-- The portfolio agent's copy of the open positions against the engine's own.
pub mod Handlers
pub mod Runs
use aicrypto_trader.Base.{
  String, ◌≡◌, ◌≢◌, refl, sym, ◌∙◌, ap, ◌⊎◌, inl, inr, Option, none, some, Bool, true, false, List,
  [], ◌∷◌, arith, str_eq, eq_iff, str_eq_refl, if◌then◌else◌, if_intro, Option-cases, Bool-cases,
  length,
}
use aicrypto_trader.Dict.{get, put, pop, get-put, get-pop, get-put_self}
use aicrypto_trader.Float.{Float}
use aicrypto_trader.Config.{Settings}
use aicrypto_trader.Bus.Messages.{
  PositionUpdate, ExitReason, Signal, MarkPrice, close_reason_of, side_eq,
}
use aicrypto_trader.Risk.Guards.{GuardResult, allowed, refused, check}
use aicrypto_trader.PaperTrade.Result.{Fault, Result, ok, err}
use aicrypto_trader.PaperTrade.Math.{calc_exit_fee}
use aicrypto_trader.PaperTrade.Account.{
  OpenPosition, Account, unrealized_pnl, equity, open_position, close, update_mark,
}
use aicrypto_trader.PaperTrade.Account.Cash.{get-close}
use aicrypto_trader.PaperTrade.Engine.{
  Engine, Outcome, done, raised, Step, and_then, is_tripped, new_engine, publish_position_update,
  book_closure, announce_closure, close_found, close_position,
}
use aicrypto_trader.PaperTrade.Engine.Signals.{
  entry_price_of, new_position, book_fill, fill, pass_guards, pass_breakers, flip, process_signal,
}
use aicrypto_trader.PaperTrade.Engine.Marks.{exit_of, mark_position, process_mark, note_mark}
use aicrypto_trader.PaperTrade.Engine.Run.{Input, signal, mark, reset, handle, run, reset_breakers}
use aicrypto_trader.PaperTrade.Engine.Refines.{new_position_fields, book_closure-account}
use aicrypto_trader.PaperTrade.Engine.Exits.{updates, book_closure-entries}
use aicrypto_trader.PaperTrade.Engine.Handlers.{process_signal_flip_raises, get-update_mark}
use aicrypto_trader.Agents.Portfolio.{Snapshot, Positions, on_position_update}

module _ {F : Type 0} ⦃fl : Float F⦄ where
  -- The agent's positions after a list of updates, the latest first.
  abbrev pub mirror : List (PositionUpdate F) → Positions F
  mirror [] = []
  mirror (u ∷ us) = on_position_update u (mirror us)

  abbrev pub snapshots : Option (OpenPosition F) → Option (Snapshot F)
  snapshots none = none
  snapshots (some p) = some (record {
    side = p.side;
    qty = p.qty;
    entry_price = p.entry_price;
    unrealized_pnl = unrealized_pnl p;
  })

  abbrev pub Agrees : String → Engine F → Type 0
  Agrees k e = get (mirror (updates e.published)) k ≡ snapshots (get e.account.open_positions k)

  -- The agent that has read all published updates has the engine's positions.
  abbrev pub IsMirrored : Engine F → Type 0
  IsMirrored e = (k : String) → Agrees k e

  -- So it is for all symbols but one.
  abbrev pub IsMirroredBut : String → Engine F → Type 0
  IsMirroredBut s e = (k : String) → str_eq s k ≡ false → Agrees k e

  pub publish-IsMirrored :
      (s : String) (e : Engine F)
      → get e.account.open_positions s ≢ none
      → IsMirroredBut s e
      → IsMirrored (publish_position_update s e)
  unfolding publish_position_update on_position_update
  publish-IsMirrored s e there but k = elim (Option-cases (get e.account.open_positions s)) [
    | inl h ↦ absurd (there h)
    | inr (p, h) ↦
        rw (h, publish_position_update)
          (elim (Bool-cases (str_eq s k)) [
            | inl same ↦ simp get-put (rw same (rw (← (eq_iff s k).0 same) (rw h)))
            | inr other ↦ simp get-put (rw other (but k other))
          ])
  ]

  pub announce-IsMirrored :
      (p : OpenPosition F) (s : String) (x : F) (r : ExitReason) (e : Engine F)
      → get e.account.open_positions s ≡ none
      → IsMirroredBut s e
      → (announce_closure p s x r e).0 ≡ done
      → IsMirrored (announce_closure p s x r e).1
  unfolding announce_closure on_position_update
  announce-IsMirrored p s x r e gone but finished k = elim (Option-cases (close_reason_of r)) [
    | inl h ↦ absurd (cc (rw (h, announce_closure) at finished))
    | inr (c, h) ↦
        rw (h, announce_closure)
          (elim (Bool-cases (str_eq s k)) [
            | inl same ↦ simp get-pop (rw same (rw (← (eq_iff s k).0 same) (rw gone)))
            | inr other ↦ simp get-pop (rw other (but k other))
          ])
  ]
