-- ===== src/Database/Orphans/Keys.antt =====
-- Closing the orphans of an earlier session leaves the correlation ids as they are.
use aicrypto_trader.Base.{
  ℕ, String, ◌≡◌, refl, ◌∙◌, inl, inr, false, ◌&&◌, List, [], ◌∷◌, All, arith, str_eq, Bool-cases,
}
use aicrypto_trader.Dict.{Dict}
use aicrypto_trader.Float.{Float}
use aicrypto_trader.Database.{Trade, has_trade, is_open}
use aicrypto_trader.Database.Orphans.{close_orphan, close_each, close_orphan_positions}
use aicrypto_trader.Database.Orphans.Each.{IsKeyed}

module _ {F : Type 0} ⦃fl : Float F⦄ where
  has_trade-close_orphan :
      (now : ℕ) (exit pnl : F) (key id : String) (ts : List (Trade F))
      → has_trade id (close_orphan now exit pnl key ts) ≡ has_trade id ts
  unfolding has_trade close_orphan
  has_trade-close_orphan now exit pnl key id [] = refl
  has_trade-close_orphan now exit pnl key id (t ∷ ts) =
      ground (arith, has_trade-close_orphan now exit pnl key id ts)

  has_trade-close_each :
      (now : ℕ) (prices : Dict F) (id : String) (rows ts : List (Trade F))
      → has_trade id (close_each now prices rows ts) ≡ has_trade id ts
  unfolding close_each
  has_trade-close_each now prices id [] ts = refl
  has_trade-close_each now prices id (row ∷ rows) ts =
      has_trade-close_each now prices id rows _ ∙ has_trade-close_orphan now _ _ _ id ts

  close_orphan-IsKeyed :
      (now : ℕ) (exit pnl : F) (key : String) (ts : List (Trade F))
      → IsKeyed ts
      → IsKeyed (close_orphan now exit pnl key ts)
  unfolding close_orphan
  close_orphan-IsKeyed now exit pnl key [] k = tt
  close_orphan-IsKeyed now exit pnl key (t ∷ ts) (new, k) =
      let new' = has_trade-close_orphan now exit pnl key t.correlation_id ts ∙ new in
      let rest = close_orphan-IsKeyed now exit pnl key ts k in
      elim (Bool-cases (str_eq t.correlation_id key && is_open t)) [
        | inl e ↦ rw e (new', rest)
        | inr e ↦ rw e (new', rest)
      ]

  close_each-IsKeyed :
      (now : ℕ) (prices : Dict F) (rows ts : List (Trade F))
      → IsKeyed ts
      → IsKeyed (close_each now prices rows ts)
  unfolding close_each
  close_each-IsKeyed now prices [] ts k = k
  close_each-IsKeyed now prices (row ∷ rows) ts k =
      close_each-IsKeyed now prices rows _ (close_orphan-IsKeyed now _ _ _ ts k)

  pub close_orphan_positions-IsKeyed :
      (now : ℕ) (prices : Dict F) (ts : List (Trade F))
      → IsKeyed ts
      → IsKeyed (close_orphan_positions now prices ts).1
  unfolding close_orphan_positions
  close_orphan_positions-IsKeyed now prices ts k = close_each-IsKeyed now prices _ ts k

  pub all_fresh :
      (now : ℕ) (prices : Dict F) (ts : List (Trade F)) (ids : List String)
      → All (λ id. has_trade id ts ≡ false) ids
      → All (λ id. has_trade id (close_orphan_positions now prices ts).1 ≡ false) ids
  unfolding close_orphan_positions
  all_fresh now prices ts [] h = tt
  all_fresh now prices ts (id ∷ ids) (h, hs) =
      (has_trade-close_each now prices id _ ts ∙ h, all_fresh now prices ts ids hs)
