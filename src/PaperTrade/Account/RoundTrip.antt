-- ===== src/PaperTrade/Account/RoundTrip.antt =====
-- A position opened and closed again: what is left in the account.
use aicrypto_trader.Base.{String, ◌≡◌, none, some, arith, eq_iff}
use aicrypto_trader.Dict.{get, put, get-put, get-put_self, get-pop}
use aicrypto_trader.Float.{Float, IsExact, ◌⊕◌, nought}
use aicrypto_trader.PaperTrade.Account.{OpenPosition, Account, open_position, close, apply_funding}

module _ {F : Type 0} ⦃fl : Float F⦄ where
  module _ (ex : IsExact F) where
    open ex use {credit, debit, add_parts, sub_parts, zero_parts, eq_of_parts}

    -- On exact amounts, a position opened under a symbol that was not in the account and closed again
    -- changes the balance by exactly the profit that `close` returns, if no funding was booked on it,
    -- and leaves every other position as it was and none under its symbol.
    pub open_position-close :
        (a : Account F) (p : OpenPosition F) (x fees net : F) (b : Account F)
        → get a.open_positions p.symbol ≡ none
        → p.funding_paid ≡ nought
        → close (open_position a p) p.symbol x fees ≡ some (net, b)
        → (b.balance ≡ a.balance ⊕ net)
          × ((j : String) → get b.open_positions j ≡ get a.open_positions j)
    unfolding open_position close
    open_position-close a p x fees net b fresh unfunded e =
        let at_hand = get-put_self a.open_positions p.symbol p in
        (
          grind (arith, add_parts, sub_parts, zero_parts, eq_of_parts),
          λ j. grind (
            arith,
            get-put a.open_positions p.symbol j p,
            get-pop (put a.open_positions p.symbol p) p.symbol j,
            eq_iff p.symbol j,
          ),
        )

    -- On exact amounts, a funding payment booked between opening and closing reaches the balance
    -- twice: once when it is applied, and once more when the position is closed.
    pub funding_counted_twice :
        (a : Account F) (p : OpenPosition F) (delta x fees net : F) (b : Account F)
        → close (apply_funding (open_position a p) p.symbol delta) p.symbol x fees ≡ some (net, b)
        → b.balance ≡ a.balance ⊕ net ⊕ p.funding_paid ⊕ delta ⊕ delta
    unfolding open_position apply_funding close
    funding_counted_twice a p delta x fees net b e =
        let at_hand = get-put_self a.open_positions p.symbol p in
        let funded : OpenPosition F = record p { funding_paid = p.funding_paid ⊕ delta } in
        let again = get-put_self (put a.open_positions p.symbol p) p.symbol funded in
        grind (arith, add_parts, sub_parts, eq_of_parts)
