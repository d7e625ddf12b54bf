-- ===== src/PaperTrade/Engine/Books.antt =====
-- The money of the engine over any run: the ledger explains the account and the daily sum.
use aicrypto_trader.Base.{
  ℕ, String, ◌≡◌, refl, ap, ◌∙◌, Option-cases, inl, inr, some, [], ◌∷◌, arith,
}
use aicrypto_trader.Dict.{Dict, get, put}
use aicrypto_trader.Float.{Float, IsExact, ◌⊕◌, nought}
use aicrypto_trader.PaperTrade.Account.{OpenPosition, Account, update_mark}
use aicrypto_trader.PaperTrade.Account.Cash.{reserved, funds, funds-open_position, funds-close}
use aicrypto_trader.PaperTrade.Engine.Ledger.{View, Move, closes, opens, marks, Moves, here, next}
use aicrypto_trader.PaperTrade.Engine.Invariant.{realized, IsOrderly, Moves-IsOrderly}

module _ {F : Type 0} ⦃fl : Float F⦄ where
  reserved-put_same :
      (d : Dict (OpenPosition F)) (k : String) (p q : OpenPosition F)
      → get d k ≡ some p
      → q.isolated_margin ≡ p.isolated_margin
      → q.fees ≡ p.fees
      → reserved (put d k q) ≡ reserved d
  unfolding get put
  reserved-put_same [] k p q h m f = absurd (cc h)
  reserved-put_same ((i, w) ∷ d) k p q h m f = ground (arith, reserved-put_same d k p q)

  funds-update_mark :
      (ex : IsExact F) (a : Account F) (s : String) (mark : F)
      → funds ex (update_mark a s mark) ≡ funds ex a
  unfolding update_mark
  funds-update_mark ex a s mark = elim (Option-cases (get a.open_positions s)) [
    | inl h ↦ rw (h, update_mark)
    | inr (p, h) ↦
        rw (h, update_mark)
          (rw (reserved-put_same a.open_positions s p (record p { mark_price = mark }) h refl refl))
  ]

  module _ (ex : IsExact F) where
    open ex use {credit, debit, add_parts, sub_parts, zero_parts, eq_of_parts}

    -- Balance and reserves are the amount `start` and all that was realized since.
    abbrev pub IsBalanced : F → View F → Type 0
    IsBalanced start v = funds ex v.account ≡ start ⊕ realized v.ledger

    pub Move-IsBalanced :
        {cap : ℕ} (start : F) {v w : View F}
        → Move cap v w
        → IsOrderly cap v
        → IsBalanced start v
        → IsBalanced start w
    Move-IsBalanced start {v} (closes s p x fees net a t found h latch e) o b = rw e (
        closing (funds-close ex v.account s x fees p net a o.unique found h) (o.unfunded s p found))
      where
        closing :
            funds ex a ≡ funds ex v.account ⊕ (net ⊕ p.funding_paid)
            → p.funding_paid ≡ nought
            → funds ex a ≡ start ⊕ (realized v.ledger ⊕ net)
        closing moved unfunded = grind (arith, add_parts, zero_parts, eq_of_parts)
    Move-IsBalanced start {v} (opens p new room calm unfunded e) o b =
        rw e (funds-open_position ex v.account p new ∙ b)
    Move-IsBalanced start {v} (marks s mark e) o b =
        rw e (funds-update_mark ex v.account s mark ∙ b)

    pub Moves-IsBalanced :
        {cap : ℕ} (start : F) {v w : View F}
        → Moves cap v w
        → IsOrderly cap v
        → IsBalanced start v
        → IsBalanced start w
    Moves-IsBalanced start here o b = b
    Moves-IsBalanced start (next ms m) o b =
        Move-IsBalanced start m (Moves-IsOrderly ms o) (Moves-IsBalanced start ms o b)

  -- The sum of the daily loss breaker is what was realized.
  abbrev pub IsSummed : View F → Type 0
  IsSummed v = v.pnl ≡ realized v.ledger

  Move-IsSummed : {cap : ℕ} {v w : View F} → Move cap v w → IsSummed v → IsSummed w
  Move-IsSummed (closes s p x fees net a t found h latch e) b = rw e (ap (λ r. r ⊕ net) b)
  Move-IsSummed (opens p new room calm unfunded e) b = rw e b
  Move-IsSummed (marks s mark e) b = rw e b

  pub Moves-IsSummed : {cap : ℕ} {v w : View F} → Moves cap v w → IsSummed v → IsSummed w
  Moves-IsSummed here b = b
  Moves-IsSummed (next ms m) b = Move-IsSummed m (Moves-IsSummed ms b)
