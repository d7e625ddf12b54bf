-- ===== src/Agents/Portfolio.antt =====
-- backend/src/cryptoswarm/agents/portfolio.py: the portfolio agent.
-- `assess` stands for the language model's answer to the prompt, which is made of the symbol, the
-- positions of the other symbols and the cap; `none` is an exception, which `_listen_analyze` logs.
pub mod Mirror
use aicrypto_trader.Base.{
  ℕ, String, Option, none, some, Bool, true, false, List, [], ◌∷◌, leb, length, if◌then◌else◌,
}
use aicrypto_trader.Dict.{Dict, get, put, pop}
use aicrypto_trader.Float.{Float, nought}
use aicrypto_trader.Config.{Settings}
use aicrypto_trader.Bus.Messages.{Side, PositionUpdate}
use aicrypto_trader.Agents.Messages.{
  AnalyzeRequest, PortfolioReason, hard_cap, assessed, PortfolioResult,
}

pub record Snapshot (F : Type 0) : Type 0 where
  pub side : Side
  pub qty : F
  pub entry_price : F
  pub unrealized_pnl : F

-- `self._positions`
abbrev pub Positions : Type 0 → Type 0
Positions F = Dict (Snapshot F)

pub record Assessment (F : Type 0) : Type 0 where
  pub approved : Bool
  pub correlation_penalty : F
  pub reasoning : String

module _ {F : Type 0} where
  -- `_on_position_update`
  unfoldable pub on_position_update : PositionUpdate F → Positions F → Positions F
  on_position_update u d =
      if u.is_closed
      then pop d u.symbol
      else put d u.symbol (record {
        side = u.side;
        qty = u.qty;
        entry_price = u.entry_price;
        unrealized_pnl = u.unrealized_pnl;
      })

module _ {F : Type 0} ⦃fl : Float F⦄ where
  -- `max_pos`: without settings it is 5.
  abbrev pub max_pos : Option (Settings F) → ℕ
  max_pos none = 5
  max_pos (some s) = s.risk.max_concurrent_positions

  abbrev answer : AnalyzeRequest → Assessment F → PortfolioResult F
  answer req a = record {
    correlation_id = req.correlation_id;
    symbol = req.symbol;
    approved = a.approved;
    correlation_penalty = a.correlation_penalty;
    reasoning = assessed a.reasoning;
  }

  -- `_handle`: the result that is published, if any.
  unfoldable pub handle_request :
      Option (Settings F)
      → (String → Positions F → ℕ → Option (Assessment F))
      → AnalyzeRequest
      → Positions F
      → Option (PortfolioResult F)
  handle_request settings assess req d =
      if leb (max_pos settings) (length d)
      then some (record {
        correlation_id = req.correlation_id;
        symbol = req.symbol;
        approved = false;
        correlation_penalty = nought;
        reasoning = hard_cap (length d) (max_pos settings);
      })
      else elim (assess req.symbol (pop d req.symbol) (max_pos settings)) [
        | none ↦ none
        | some a ↦ some (answer req a)
      ]
