-- ===== src/PaperTrade/Account/Cash.antt =====
-- Where the money of an account is: what opening, closing and funding a position do to the balance.
use aicrypto_trader.Base.{◌+◌, String, ◌≡◌, refl, none, some, [], ◌∷◌, arith, eq_iff}
use aicrypto_trader.Dict.{Dict, get, put, pop, IsUnique}
use aicrypto_trader.Float.{Float, IsExact, ◌⊕◌, ◌⊖◌, nought}
use aicrypto_trader.PaperTrade.Math.{calc_realized_pnl}
use aicrypto_trader.PaperTrade.Account.{OpenPosition, Account, open_position, close}

module _ {F : Type 0} ⦃fl : Float F⦄ where
  -- The isolated margins and entry fees that the open positions have taken out of the balance.
  abbrev pub reserved : Dict (OpenPosition F) → F
  reserved [] = nought
  reserved ((k, p) ∷ d) = p.isolated_margin ⊕ p.fees ⊕ reserved d

  pub get-close :
      (a : Account F) (s : String) (x fees : F) {p : OpenPosition F}
      → get a.open_positions s ≡ some p
      → let pnl = calc_realized_pnl p.qty p.entry_price x p.side in
        close a s x fees
        ≡ some (
          pnl ⊖ p.fees ⊖ fees,
          record a {
            balance = a.balance ⊕ (p.isolated_margin ⊕ pnl ⊖ fees ⊕ p.funding_paid);
            open_positions = pop a.open_positions s;
          },
        )
  unfolding close
  get-close a s x fees h = rw (h, close)

  module _ (ex : IsExact F) where
    open ex use {credit, debit, add_parts, sub_parts, zero_parts, eq_of_parts}

    pub reserved-put_new :
        (d : Dict (OpenPosition F)) (k : String) (p : OpenPosition F)
        → get d k ≡ none
        → reserved (put d k p) ≡ reserved d ⊕ (p.isolated_margin ⊕ p.fees)
    unfolding get put
    reserved-put_new [] k p h = omega (arith, add_parts, zero_parts, eq_of_parts)
    reserved-put_new ((i, w) ∷ d) k p h =
        grind (arith, reserved-put_new d k p, add_parts, eq_of_parts)

    reserved-pop-none :
        (d : Dict (OpenPosition F)) (k : String) → get d k ≡ none → reserved (pop d k) ≡ reserved d
    unfolding get pop
    reserved-pop-none [] k h = refl
    reserved-pop-none ((i, w) ∷ d) k h = ground (arith, reserved-pop-none d k)

    pub reserved-pop :
        (d : Dict (OpenPosition F)) (k : String) (p : OpenPosition F)
        → IsUnique d
        → get d k ≡ some p
        → reserved (pop d k) ⊕ (p.isolated_margin ⊕ p.fees) ≡ reserved d
    unfolding get pop
    reserved-pop [] k p u h = absurd (cc h)
    reserved-pop ((i, w) ∷ d) k p (new, u) h =
        grind
          (arith, eq_iff i k, reserved-pop d k p u, reserved-pop-none d k, add_parts, eq_of_parts)

    -- The balance and what the open positions hold.
    abbrev pub funds : Account F → F
    funds a = a.balance ⊕ reserved a.open_positions

    -- Opening a position under a new symbol moves money from the balance to the reserve only.
    pub funds-open_position :
        (a : Account F) (p : OpenPosition F)
        → get a.open_positions p.symbol ≡ none
        → funds (open_position a p) ≡ funds a
    unfolding open_position
    funds-open_position a p h = omega (
      arith,
      ap_parts (reserved-put_new a.open_positions p.symbol p h),
      add_parts,
      sub_parts,
      eq_of_parts,
    )
      where
        ap_parts : {x y : F} → x ≡ y → (credit x + debit y ≡ credit y + debit x)
        ap_parts e = rw e

    -- Closing a position changes the funds by the profit that `close` returns and the funding that
    -- was booked on the position.
    pub funds-close :
        (a : Account F) (s : String) (x fees : F) (p : OpenPosition F) (net : F) (b : Account F)
        → IsUnique a.open_positions
        → get a.open_positions s ≡ some p
        → close a s x fees ≡ some (net, b)
        → funds b ≡ funds a ⊕ (net ⊕ p.funding_paid)
    unfolding close
    funds-close a s x fees p net b u h e =
        grind (arith, reserved-pop a.open_positions s p u h, add_parts, sub_parts, eq_of_parts)
