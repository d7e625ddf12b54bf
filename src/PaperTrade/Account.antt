-- ===== src/PaperTrade/Account.antt =====
-- backend/src/cryptoswarm/papertrade/account.py: the paper account and its open positions.
pub mod Cash
pub mod RoundTrip
use aicrypto_trader.Base.{ℕ, String, Option, none, some, Bool, List, [], ◌∷◌, if◌then◌else◌}
use aicrypto_trader.Int.{ℤ}
use aicrypto_trader.Dict.{Dict, get, put, pop}
use aicrypto_trader.Float.{Float, ◌⊕◌, ◌⊖◌, eq, nought, sum_from}
use aicrypto_trader.Bus.Messages.{Side, ExitReason}
use aicrypto_trader.PaperTrade.Math.{calc_unrealized_pnl, calc_realized_pnl}

-- `opened_at` is a unix time stamp in seconds.
pub record OpenPosition (F : Type 0) : Type 0 where
  pub symbol : String
  pub side : Side
  pub qty : F
  pub entry_price : F
  pub leverage : ℤ
  pub sl : F
  pub tp : F
  pub isolated_margin : F
  pub liq_price : F
  pub fees : F
  pub correlation_id : String
  pub mark_price : F
  pub funding_paid : F
  pub opened_at : F

pub record Account (F : Type 0) : Type 0 where
  pub balance : F
  pub open_positions : Dict (OpenPosition F)

module _ {F : Type 0} ⦃fl : Float F⦄ where
  unfoldable pub unrealized_pnl : OpenPosition F → F
  unrealized_pnl p =
      if eq p.mark_price nought
      then nought
      else calc_unrealized_pnl p.qty p.entry_price p.mark_price p.side

  abbrev pub new_account : F → Account F
  new_account starting_balance = record { balance = starting_balance; open_positions = [] }

  abbrev pnls : Dict (OpenPosition F) → List F
  pnls [] = []
  pnls ((k, p) ∷ d) = unrealized_pnl p ∷ pnls d

  unfoldable pub equity : Account F → F
  equity a = a.balance ⊕ sum_from nought (pnls a.open_positions)

  -- `Account.open`
  unfoldable pub open_position : Account F → OpenPosition F → Account F
  open_position a p = record a {
    balance = a.balance ⊖ (p.isolated_margin ⊕ p.fees);
    open_positions = put a.open_positions p.symbol p;
  }

  -- The body of `Account.close` once the position has been popped.
  abbrev pub settle : Account F → String → OpenPosition F → F → F → F × Account F
  settle a symbol p exit_price exit_fees =
      let pnl = calc_realized_pnl p.qty p.entry_price exit_price p.side in
      (
        pnl ⊖ p.fees ⊖ exit_fees,
        record a {
          balance = a.balance ⊕ (p.isolated_margin ⊕ pnl ⊖ exit_fees ⊕ p.funding_paid);
          open_positions = pop a.open_positions symbol;
        },
      )

  -- `Account.close`: the profit net of fees and the account; `none` is a `KeyError`.
  unfoldable pub close : Account F → String → F → F → Option (F × Account F)
  close a symbol exit_price exit_fees = elim (get a.open_positions symbol) [
    | none ↦ none
    | some p ↦ some (settle a symbol p exit_price exit_fees)
  ]

  unfoldable pub apply_funding : Account F → String → F → Account F
  apply_funding a symbol funding_delta = elim (get a.open_positions symbol) [
    | none ↦ a
    | some p ↦ record a {
      balance = a.balance ⊕ funding_delta;
      open_positions =
          put a.open_positions symbol (record p { funding_paid = p.funding_paid ⊕ funding_delta });
    }
  ]

  unfoldable pub update_mark : Account F → String → F → Account F
  update_mark a symbol mark = elim (get a.open_positions symbol) [
    | none ↦ a
    | some p ↦ record a {
      open_positions = put a.open_positions symbol (record p { mark_price = mark });
    }
  ]
