-- ===== src/Database/Followed/Booked.antt =====
-- What the statements on `trades` keep of `IsBooked`.
use aicrypto_trader.Base.{
  ℕ, suc, String, ◌≡◌, ◌⊎◌, subst, refl, sym, ◌∙◌, ap, none, some, false, true, List, [], ◌∷◌, ◌++◌,
  All, arith, length, str_eq, eq_iff, Bool-cases, Option-cases, inl, inr,
}
use aicrypto_trader.Dict.{
  Dict, get, put, pop, put-IsUnique, pop-IsUnique, length-put_new, length-put_old, length-pop_found,
}
use aicrypto_trader.Float.{Float, IsExact, ◌⊕◌}
use aicrypto_trader.PaperTrade.Account.{OpenPosition}
use aicrypto_trader.PaperTrade.Engine.Ledger.{Entry, opened, closed}
use aicrypto_trader.Storage.{OpenRow, CloseRow}
use aicrypto_trader.Database.{Trade, has_trade, is_open, insert_open, update_close, trade_of}
use aicrypto_trader.Database.Orphans.{open_rows}
use aicrypto_trader.Database.Orphans.Each.{IsKeyed}
use aicrypto_trader.Database.Followed.{find_open, profits, IsBlank, IsBooked}
use aicrypto_trader.Database.Followed.Statements.{
  find_open-absent, has_trade-append, has_trade-update_close,
}

module _ {F : Type 0} ⦃fl : Float F⦄ where
  -- A row with a new correlation id, behind the others.
  append-IsKeyed :
      (at : ℕ) (r : OpenRow F) (ts : List (Trade F))
      → has_trade r.correlation_id ts ≡ false
      → IsKeyed ts
      → IsKeyed (ts ++ (trade_of at r ∷ []))
  unfolding has_trade
  append-IsKeyed at r [] h k = (refl, tt)
  append-IsKeyed at r (t ∷ ts) h (new, k) = (
    has_trade-append t.correlation_id at r ts new (
        ground (
          arith,
          h,
          eq_iff r.correlation_id t.correlation_id,
          eq_iff t.correlation_id r.correlation_id,
        )),
    append-IsKeyed at r ts (ground (arith, h)) k,
  )

  append-IsBlank :
      (at : ℕ) (r : OpenRow F) (ts : List (Trade F))
      → All IsBlank ts
      → All IsBlank (ts ++ (trade_of at r ∷ []))
  append-IsBlank at r [] b = ((λ _. refl), tt)
  append-IsBlank at r (t ∷ ts) (b, bs) = (b, append-IsBlank at r ts bs)

  open_rows-append :
      (at : ℕ) (r : OpenRow F) (ts : List (Trade F))
      → length (open_rows (ts ++ (trade_of at r ∷ []))) ≡ suc (length (open_rows ts))
  unfolding open_rows
  open_rows-append at r [] = refl
  open_rows-append at r (t ∷ ts) = ground (arith, open_rows-append at r ts)

  profits-append :
      (at : ℕ) (r : OpenRow F) (ts : List (Trade F))
      → profits (ts ++ (trade_of at r ∷ [])) ≡ profits ts
  profits-append at r [] = refl
  profits-append at r (t ∷ ts) = elim (Option-cases (t.realized_pnl)) [
    | inl e ↦ rw e (profits-append at r ts)
    | inr (pnl, e) ↦ rw e (ap (λ x. x ⊕ pnl) (profits-append at r ts))
  ]

  pub insert_open-IsBooked :
      (old ts : List (Trade F)) (d : Dict (OpenPosition F)) (es : List (Entry F)) (at : ℕ)
      (r : OpenRow F) (k : String) (p : OpenPosition F) (s : String)
      → get d k ≡ none
      → has_trade r.correlation_id ts ≡ false
      → IsBooked old ts d es
      → IsBooked old (insert_open at r ts) (put d k p) (opened s ∷ es)
  unfolding insert_open
  insert_open-IsBooked old ts d es at r k p s new fresh b =
      rw (fresh, insert_open)
        (record {
          unique = put-IsUnique d k p b.unique;
          keyed = append-IsKeyed at r ts fresh b.keyed;
          blank = append-IsBlank at r ts b.blank;
          counted = omega (arith, open_rows-append at r ts, length-put_new d k p new, b.counted);
          summed = λ ex. profits-append at r ts ∙ b.summed ex;
        })

  pub put-IsBooked :
      (old ts : List (Trade F)) (d : Dict (OpenPosition F)) (es : List (Entry F)) (k : String)
      (p q : OpenPosition F)
      → get d k ≡ some p
      → IsBooked old ts d es
      → IsBooked old ts (put d k q) es
  put-IsBooked old ts d es k p q there b = record {
    unique = put-IsUnique d k q b.unique;
    keyed = b.keyed;
    blank = b.blank;
    counted = b.counted ∙ sym (length-put_old d k q (λ h. cc (there, h)));
    summed = b.summed;
  }

  update_close-absent :
      (at : ℕ) (c : CloseRow F) (ts : List (Trade F))
      → has_trade c.correlation_id ts ≡ false
      → update_close at c ts ≡ ts
  unfolding update_close has_trade
  update_close-absent at c [] h = refl
  update_close-absent at c (t ∷ ts) h = ground (arith, update_close-absent at c ts)

  update_close-IsKeyed :
      (at : ℕ) (c : CloseRow F) (ts : List (Trade F)) → IsKeyed ts → IsKeyed (update_close at c ts)
  unfolding update_close
  update_close-IsKeyed at c [] k = tt
  update_close-IsKeyed at c (t ∷ ts) (new, k) =
      elim (Bool-cases (str_eq t.correlation_id c.correlation_id)) [
        | inl e ↦
            rw e (
              has_trade-update_close t.correlation_id at c ts ∙ new,
              update_close-IsKeyed at c ts k,
            )
        | inr e ↦
            rw e (
              has_trade-update_close t.correlation_id at c ts ∙ new,
              update_close-IsKeyed at c ts k,
            )
      ]

  update_close-IsBlank :
      (at : ℕ) (c : CloseRow F) (ts : List (Trade F))
      → All IsBlank ts
      → All IsBlank (update_close at c ts)
  unfolding update_close
  update_close-IsBlank at c [] b = tt
  update_close-IsBlank at c (t ∷ ts) (b, bs) =
      elim (Bool-cases (str_eq t.correlation_id c.correlation_id)) [
        | inl e ↦ rw e ((λ o. absurd (cc o)), update_close-IsBlank at c ts bs)
        | inr e ↦ rw e (b, update_close-IsBlank at c ts bs)
      ]

  -- The row of a correlation id is the first of its rows, and open, or it is further behind.
  find_open-cases :
      (id : String) (t : Trade F) (ts : List (Trade F)) (r : OpenRow F)
      → IsKeyed (t ∷ ts)
      → find_open id (t ∷ ts) ≡ some r
      → ((t.correlation_id ≡ id) × (is_open t ≡ true) × (has_trade id ts ≡ false))
        ⊎ ((str_eq t.correlation_id id ≡ false) × (find_open id ts ≡ some r))
  unfolding find_open
  find_open-cases id t ts r (new, k) h = elim (Bool-cases (str_eq t.correlation_id id)) [
    | inl e ↦
        let same = (eq_iff t.correlation_id id).0 e in
        let absent : has_trade id ts ≡ false =
          subst (λ (i : String). has_trade i ts ≡ false) same new in
        inl (same, ground (arith, h, find_open-absent id ts absent), absent)
    | inr e ↦ inr (e, ground (arith, h, e))
  ]

  open_rows-update_close :
      (at : ℕ) (c : CloseRow F) (ts : List (Trade F)) (r : OpenRow F)
      → IsKeyed ts
      → find_open c.correlation_id ts ≡ some r
      → suc (length (open_rows (update_close at c ts))) ≡ length (open_rows ts)
  unfolding open_rows update_close find_open
  open_rows-update_close at c [] r k h = absurd (cc h)
  open_rows-update_close at c (t ∷ ts) r k h = elim (find_open-cases c.correlation_id t ts r k h) [
    | inl (same, is, new) ↦
        ground (
          arith,
          is,
          eq_iff t.correlation_id c.correlation_id,
          same,
          update_close-absent at c ts new,
        )
    | inr (other, later) ↦ ground (arith, other, open_rows-update_close at c ts r k.1 later)
  ]

  module _ (ex : IsExact F) where
    swapped : (a b c : F) → (a ⊕ b) ⊕ c ≡ (a ⊕ c) ⊕ b
    swapped a b c = omega (arith, ex.add_parts, ex.eq_of_parts)

    regrouped : (a b c : F) → (a ⊕ b) ⊕ c ≡ a ⊕ (b ⊕ c)
    regrouped a b c = omega (arith, ex.add_parts, ex.eq_of_parts)

  profits-update_close :
      (ex : IsExact F) (at : ℕ) (c : CloseRow F) (ts : List (Trade F)) (r : OpenRow F)
      → IsKeyed ts
      → All IsBlank ts
      → find_open c.correlation_id ts ≡ some r
      → profits (update_close at c ts) ≡ profits ts ⊕ c.realized_pnl
  unfolding update_close find_open
  profits-update_close ex at c [] r k b h = absurd (cc h)
  profits-update_close ex at c (t ∷ ts) r k (b, bs) h =
      elim (find_open-cases c.correlation_id t ts r k h) [
        | inl (same, is, new) ↦
            let matches : str_eq t.correlation_id c.correlation_id ≡ true =
              (eq_iff t.correlation_id c.correlation_id).1 same in
            rw (matches, b is)
              (ap (λ us. profits us ⊕ c.realized_pnl) (update_close-absent at c ts new))
        | inr (other, later) ↦
            let behind = profits-update_close ex at c ts r k.1 bs later in
            elim (Option-cases (t.realized_pnl)) [
              | inl none_yet ↦ rw (other, none_yet) behind
              | inr (pnl, has) ↦
                  rw (other, has, behind) (swapped ex (profits ts) c.realized_pnl pnl)
            ]
      ]

  pub update_close-IsBooked :
      (old ts : List (Trade F)) (d : Dict (OpenPosition F)) (es : List (Entry F)) (at : ℕ)
      (c : CloseRow F) (k : String) (p : OpenPosition F) (r : OpenRow F)
      → get d k ≡ some p
      → find_open c.correlation_id ts ≡ some r
      → IsBooked old ts d es
      → IsBooked old (update_close at c ts) (pop d k) (closed k c.realized_pnl ∷ es)
  update_close-IsBooked old ts d es at c k p r there row b = record {
    unique = pop-IsUnique d k b.unique;
    keyed = update_close-IsKeyed at c ts b.keyed;
    blank = update_close-IsBlank at c ts b.blank;
    counted = omega (
      arith,
      open_rows-update_close at c ts r b.keyed row,
      length-pop_found d k p b.unique there,
      b.counted,
    );
    summed = λ ex.
        profits-update_close ex at c ts r b.keyed b.blank row
        ∙ ap (λ x. x ⊕ c.realized_pnl) (b.summed ex)
        ∙ regrouped ex (profits old) _ c.realized_pnl;
  }
