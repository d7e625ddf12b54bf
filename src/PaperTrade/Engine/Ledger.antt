-- ===== src/PaperTrade/Engine/Ledger.antt =====
-- What the engine promises, without its messages and formulas: a ledger of openings and closures.
use aicrypto_trader.Base.{ℕ, ◌<◌, String, ◌≡◌, none, some, Bool, true, false, List, [], ◌∷◌, length}
use aicrypto_trader.Dict.{get}
use aicrypto_trader.Float.{Float, ◌⊕◌, nought}
use aicrypto_trader.Bus.Messages.{
  Publication, risk_veto, trade_executed, trade_closed, position_update, circuit_tripped,
}
use aicrypto_trader.PaperTrade.Account.{OpenPosition, Account, open_position, close, update_mark}
use aicrypto_trader.PaperTrade.Engine.{Engine, is_tripped}

-- A trade that was opened, by its symbol, or closed with a net profit.
pub data Entry (F : Type 0) : Type 0 where
  opened : String → Entry F
  closed : String → F → Entry F

-- The entries among the publications, the latest first.
abbrev pub entries : {F : Type 0} → List (Publication F) → List (Entry F)
entries [] = []
entries (trade_executed t ∷ ms) = opened t.symbol ∷ entries ms
entries (trade_closed t ∷ ms) = closed t.symbol t.realized_pnl ∷ entries ms
entries (risk_veto v ∷ ms) = entries ms
entries (position_update u ∷ ms) = entries ms
entries (circuit_tripped c ∷ ms) = entries ms

-- `pnl` is the sum that the daily loss breaker keeps.
pub record View (F : Type 0) : Type 0 where
  pub account : Account F
  pub ledger : List (Entry F)
  pub tripped : Bool
  pub pnl : F

module _ {F : Type 0} ⦃fl : Float F⦄ where
  abbrev pub view : Engine F → View F
  view e = record {
    account = e.account;
    ledger = entries e.published;
    tripped = is_tripped e;
    pnl = e.daily_loss.cumulative_pnl;
  }

  -- One change of the view, where at most `cap` positions may be open. A position is opened only
  -- under a symbol that has none, with room for it, and while no breaker is tripped; closing one may
  -- trip a breaker and never releases it.
  pub data Move (cap : ℕ) (v w : View F) : Type 0 where
    closes :
        (s : String) (p : OpenPosition F) (x fees net : F) (a : Account F) (t : Bool)
        → get v.account.open_positions s ≡ some p
        → close v.account s x fees ≡ some (net, a)
        → (v.tripped ≡ true → t ≡ true)
        → w
          ≡ record { account = a; ledger = closed s net ∷ v.ledger; tripped = t; pnl = v.pnl ⊕ net }
        → Move cap v w
    opens :
        (p : OpenPosition F)
        → get v.account.open_positions p.symbol ≡ none
        → length v.account.open_positions < cap
        → v.tripped ≡ false
        → p.funding_paid ≡ nought
        → w ≡ record v { account = open_position v.account p; ledger = opened p.symbol ∷ v.ledger }
        → Move cap v w
    marks :
        (s : String) (mark : F)
        → w ≡ record v { account = update_mark v.account s mark }
        → Move cap v w

  pub data Moves (cap : ℕ) (v : View F) : View F → Type 0 where
    here : Moves cap v v
    next : {u w : View F} → Moves cap v u → Move cap u w → Moves cap v w

  pub Moves-trans : {cap : ℕ} {u v w : View F} → Moves cap u v → Moves cap v w → Moves cap u w
  Moves-trans ms here = ms
  Moves-trans ms (next ns m) = next (Moves-trans ms ns) m

  pub Move-Moves : {cap : ℕ} {v w : View F} → Move cap v w → Moves cap v w
  Move-Moves m = next here m
