-- ===== src/PaperTrade/Engine/Exits.antt =====
-- How positions end: the exits that a mark price triggers, and the closures that raise.
use aicrypto_trader.Base.{String, ◌≡◌, ◌↔◌, none, some, true, false, List, [], ◌∷◌, arith}
use aicrypto_trader.Dict.{get}
use aicrypto_trader.Float.{Float, ◌⊖◌, le, lt}
use aicrypto_trader.Config.{Settings}
use aicrypto_trader.Bus.Messages.{
  Side, long, short, ExitReason, close_reason_of, Publication, PositionUpdate, risk_veto,
  trade_executed, trade_closed, position_update, circuit_tripped,
}
use aicrypto_trader.PaperTrade.Result.{validation_error}
use aicrypto_trader.PaperTrade.Math.{calc_exit_fee, calc_realized_pnl}
use aicrypto_trader.PaperTrade.Account.{OpenPosition}
use aicrypto_trader.PaperTrade.Account.Cash.{get-close}
use aicrypto_trader.PaperTrade.Engine.{
  Engine, raised, Step, max_hold_seconds, book_closure, announce_closure, close_found,
  close_position,
}
use aicrypto_trader.PaperTrade.Engine.Marks.{adverse_hit, favourable_hit, exit_of}
use aicrypto_trader.PaperTrade.Engine.Ledger.{entries, closed}
use aicrypto_trader.PaperTrade.Engine.Refines.{close_position-gone}

-- The position updates among the publications.
abbrev pub updates : {F : Type 0} → List (Publication F) → List (PositionUpdate F)
updates [] = []
updates (position_update u ∷ ms) = u ∷ updates ms
updates (risk_veto v ∷ ms) = updates ms
updates (trade_executed t ∷ ms) = updates ms
updates (trade_closed t ∷ ms) = updates ms
updates (circuit_tripped c ∷ ms) = updates ms

module _ {F : Type 0} ⦃fl : Float F⦄ where
  -- The price lies strictly inside the levels of a position that has not been held for too long.
  -- An inequality is the failure of the opposite comparison, which a price that is NaN fails too.
  abbrev pub IsInside : Side → F → OpenPosition F → Type 0
  IsInside long mark p =
      (le mark p.liq_price ≡ false) × (le mark p.sl ≡ false) × (le p.tp mark ≡ false)
  IsInside short mark p =
      (le p.liq_price mark ≡ false) × (le p.sl mark ≡ false) × (le mark p.tp ≡ false)

  -- The exit, by its reason, that the clock and a mark price call for, and its price. The maximal
  -- holding time comes before the liquidation, that before the stop loss, and that before the take
  -- profit: each applies only where none of those before it does.
  abbrev pub ExitFits : F → F → OpenPosition F → ExitReason → F → Type 0
  ExitFits now mark p ExitReason.max_hold x =
      (lt max_hold_seconds (now ⊖ p.opened_at) ≡ true) × (x ≡ mark)
  ExitFits now mark p ExitReason.liq x =
      (lt max_hold_seconds (now ⊖ p.opened_at) ≡ false)
      × (adverse_hit p.side mark p.liq_price ≡ true)
      × (x ≡ p.liq_price)
  ExitFits now mark p ExitReason.sl x =
      (lt max_hold_seconds (now ⊖ p.opened_at) ≡ false)
      × (adverse_hit p.side mark p.sl ≡ true)
      × (adverse_hit p.side mark p.liq_price ≡ false)
      × (x ≡ p.sl)
  ExitFits now mark p ExitReason.tp x =
      (lt max_hold_seconds (now ⊖ p.opened_at) ≡ false)
      × (favourable_hit p.side mark p.tp ≡ true)
      × (adverse_hit p.side mark p.liq_price ≡ false)
      × (adverse_hit p.side mark p.sl ≡ false)
      × (x ≡ p.tp)
  ExitFits now mark p ExitReason.manual x = ⊥
  ExitFits now mark p ExitReason.direction_flip x = ⊥

  IsInside-iff :
      (s : Side) (mark : F) (p : OpenPosition F)
      → ((adverse_hit s mark p.liq_price ≡ false)
          × (adverse_hit s mark p.sl ≡ false)
          × (favourable_hit s mark p.tp ≡ false))
        ↔ IsInside s mark p
  unfolding adverse_hit favourable_hit
  IsInside-iff long mark p = (λ h. h, λ h. h)
  IsInside-iff short mark p = (λ h. h, λ h. h)

  pub exit_of-none_iff :
      (now mark : F) (p : OpenPosition F)
      → (exit_of now mark p ≡ none)
        ↔ ((lt max_hold_seconds (now ⊖ p.opened_at) ≡ false) × IsInside p.side mark p)
  unfolding exit_of
  exit_of-none_iff now mark p = (
    λ h. (ground arith, (IsInside-iff p.side mark p).0 (ground arith, ground arith, ground arith)),
    λ (young, inside). let hits = (IsInside-iff p.side mark p).1 inside in ground arith,
  )

  pub exit_of-ExitFits :
      (now mark x : F) (p : OpenPosition F) (r : ExitReason)
      → exit_of now mark p ≡ some (r, x)
      → ExitFits now mark p r x
  unfolding exit_of
  exit_of-ExitFits now mark x p ExitReason.sl h = ground arith
  exit_of-ExitFits now mark x p ExitReason.tp h = ground arith
  exit_of-ExitFits now mark x p ExitReason.liq h = ground arith
  exit_of-ExitFits now mark x p ExitReason.manual h = ground arith
  exit_of-ExitFits now mark x p ExitReason.max_hold h = ground arith
  exit_of-ExitFits now mark x p ExitReason.direction_flip h = ground arith

  module _ (cfg : Settings F) where
    pub book_closure-entries :
        (p : OpenPosition F) (s : String) (x : F) (r : ExitReason) (fee net : F) (e : Engine F)
        → let e' = book_closure cfg p s x r fee net e in
          (entries e'.published ≡ closed s net ∷ entries e.published)
          × (updates e'.published ≡ updates e.published)
    unfolding book_closure
    book_closure-entries p s x r fee net e = ground arith

    -- The closure of the position `p` has been booked, with the net profit that `close` returns at
    -- the exit price `x`, but was not announced.
    abbrev pub IsUnannounced : OpenPosition F → String → F → Engine F → Step F → Type 0
    IsUnannounced p s x e r =
        let fee = calc_exit_fee p.qty x cfg.fees.taker_rate in
        let net = calc_realized_pnl p.qty p.entry_price x p.side ⊖ p.fees ⊖ fee in
        (r.0 ≡ raised validation_error)
        × (get r.1.account.open_positions s ≡ none)
        × (entries r.1.published ≡ closed s net ∷ entries e.published)
        × (updates r.1.published ≡ updates e.published)

    pub close_position-IsUnannounced :
        (p : OpenPosition F) (s : String) (x : F) (r : ExitReason) (e : Engine F)
        → get e.account.open_positions s ≡ some p
        → close_reason_of r ≡ none
        → IsUnannounced p s x e (close_position cfg s x r e)
    unfolding close_position close_found announce_closure
    close_position-IsUnannounced p s x r e h invalid =
        let gone = close_position-gone cfg s x r e in
        let fee = calc_exit_fee p.qty x cfg.fees.taker_rate in
        let found = get-close e.account s x fee h in
        (
          rw (h, close_position) (rw (found, close_found) (rw (invalid, announce_closure))),
          gone,
          rw (h, close_position)
              (rw (found, close_found)
                (rw (invalid, announce_closure) (book_closure-entries p s x r fee _ _).0)),
          rw (h, close_position)
              (rw (found, close_found)
                (rw (invalid, announce_closure) (book_closure-entries p s x r fee _ _).1)),
        )
