-- ===== src/Database/Followed/Statements.antt =====
-- What the statements on `trades` and the engine's changes of a position keep of `Follows`.
use aicrypto_trader.Base.{
  ℕ, String, ◌≡◌, ◌⊎◌, refl, sym, ◌∙◌, inl, inr, none, some, false, true, List, [], ◌∷◌, ◌++◌,
  arith, str_eq, eq_iff, if◌then◌else◌, Bool-cases,
}
use aicrypto_trader.Dict.{Dict, get, put, pop, get-put, get-pop}
use aicrypto_trader.Float.{Float}
use aicrypto_trader.PaperTrade.Account.{OpenPosition}
use aicrypto_trader.Storage.{OpenRow, CloseRow}
use aicrypto_trader.Database.{Trade, has_trade, insert_open, update_close, trade_of}
use aicrypto_trader.Database.Followed.{position_row, find_open, Follows}

module _ {F : Type 0} ⦃fl : Float F⦄ where
  find_open-id :
      (id : String) (ts : List (Trade F)) (r : OpenRow F)
      → find_open id ts ≡ some r
      → r.correlation_id ≡ id
  unfolding find_open
  find_open-id id [] r h = absurd (cc h)
  find_open-id id (t ∷ ts) r h = ground (arith, h, eq_iff t.correlation_id id, find_open-id id ts r)

  find_open-update_close :
      (id : String) (at : ℕ) (r : CloseRow F) (ts : List (Trade F))
      → find_open id (update_close at r ts)
        ≡ (if str_eq r.correlation_id id then none else find_open id ts)
  unfolding find_open update_close
  find_open-update_close id at r [] = ground arith
  find_open-update_close id at r (t ∷ ts) = ground (
    arith,
    eq_iff t.correlation_id id,
    eq_iff r.correlation_id id,
    eq_iff t.correlation_id r.correlation_id,
    find_open-update_close id at r ts,
  )

  find_open-append :
      (id : String) (at : ℕ) (r : OpenRow F) (ts : List (Trade F))
      → has_trade r.correlation_id ts ≡ false
      → find_open id (ts ++ (trade_of at r ∷ []))
        ≡ (if str_eq r.correlation_id id then some r else find_open id ts)
  unfolding find_open has_trade
  find_open-append id at r [] h = ground arith
  find_open-append id at r (t ∷ ts) h = ground (
    arith,
    h,
    eq_iff t.correlation_id id,
    eq_iff r.correlation_id id,
    eq_iff t.correlation_id r.correlation_id,
    find_open-append id at r ts,
  )

  pub has_trade-append :
      (id : String) (at : ℕ) (r : OpenRow F) (ts : List (Trade F))
      → has_trade id ts ≡ false
      → str_eq r.correlation_id id ≡ false
      → has_trade id (ts ++ (trade_of at r ∷ [])) ≡ false
  unfolding has_trade
  has_trade-append id at r [] h n = ground (arith, n)
  has_trade-append id at r (t ∷ ts) h n = ground (arith, h, n, has_trade-append id at r ts)

  pub has_trade-update_close :
      (id : String) (at : ℕ) (r : CloseRow F) (ts : List (Trade F))
      → has_trade id (update_close at r ts) ≡ has_trade id ts
  unfolding has_trade update_close
  has_trade-update_close id at r [] = refl
  has_trade-update_close id at r (t ∷ ts) = ground (arith, has_trade-update_close id at r ts)

  pub find_open-absent :
      (id : String) (ts : List (Trade F)) → has_trade id ts ≡ false → find_open id ts ≡ none
  unfolding find_open has_trade
  find_open-absent id [] h = refl
  find_open-absent id (t ∷ ts) h = ground (arith, h, find_open-absent id ts)

  find_open-insert_open :
      (id : String) (at : ℕ) (r : OpenRow F) (ts : List (Trade F))
      → has_trade r.correlation_id ts ≡ false
      → find_open id (insert_open at r ts)
        ≡ (if str_eq r.correlation_id id then some r else find_open id ts)
  unfolding insert_open
  find_open-insert_open id at r ts h = rw (h, insert_open) (find_open-append id at r ts h)

  -- A position under a symbol that has none, with a correlation id that no row has.
  pub insert_open-Follows :
      (at : ℕ) (p : OpenPosition F) (ts : List (Trade F)) (d : Dict (OpenPosition F))
      → get d p.symbol ≡ none
      → has_trade p.correlation_id ts ≡ false
      → Follows ts d
      → Follows (insert_open at (position_row p) ts) (put d p.symbol p)
  insert_open-Follows at p ts d new fresh f = record {
    recorded =
        λ s q h. row_of s q (Bool-cases (str_eq p.symbol s)) (sym (get-put d p.symbol s p) ∙ h);
    held = λ id r h.
        position_of id r (Bool-cases (str_eq p.correlation_id id))
          (sym (find_open-insert_open id at (position_row p) ts fresh) ∙ h);
  }
    where
      row_of :
          (s : String) (q : OpenPosition F)
          → (str_eq p.symbol s ≡ true) ⊎ (str_eq p.symbol s ≡ false)
          → (if str_eq p.symbol s then some p else get d s) ≡ some q
          → (find_open q.correlation_id (insert_open at (position_row p) ts)
              ≡ some (position_row q))
            × (q.symbol ≡ s)
      row_of s q (inl e) h = ground (
        arith,
        eq_iff p.symbol s,
        eq_iff p.correlation_id q.correlation_id,
        find_open-insert_open q.correlation_id at (position_row p) ts fresh,
      )
      row_of s q (inr e) h = ground (
        arith,
        eq_iff p.correlation_id q.correlation_id,
        find_open-insert_open q.correlation_id at (position_row p) ts fresh,
        find_open-absent q.correlation_id ts,
        f.recorded s q,
      )

      position_of :
          (id : String) (r : OpenRow F)
          → (str_eq p.correlation_id id ≡ true) ⊎ (str_eq p.correlation_id id ≡ false)
          → (if str_eq p.correlation_id id then some (position_row p) else find_open id ts) ≡ some r
          → (q : OpenPosition F) × (get (put d p.symbol p) r.symbol ≡ some q) × (position_row q ≡ r)
      position_of id r (inl e) h =
          (p, ground (arith, get-put d p.symbol r.symbol p, eq_iff p.symbol r.symbol), ground arith)
      position_of id r (inr e) h =
          let (q, there, same) = f.held id r (rw e at h) in
          (q, ground (arith, get-put d p.symbol r.symbol p, eq_iff p.symbol r.symbol), same)

  -- The position under a symbol is closed, and the rows with its correlation id.
  pub update_close-Follows :
      (at : ℕ) (c : CloseRow F) (s : String) (p : OpenPosition F) (ts : List (Trade F))
      (d : Dict (OpenPosition F))
      → get d s ≡ some p
      → c.correlation_id ≡ p.correlation_id
      → Follows ts d
      → Follows (update_close at c ts) (pop d s)
  update_close-Follows at c s p ts d there same f = record {
    recorded = λ k q h. row_of k q (Bool-cases (str_eq s k)) (sym (get-pop d s k) ∙ h);
    held = λ id r h.
        position_of id r (Bool-cases (str_eq c.correlation_id id))
          (sym (find_open-update_close id at c ts) ∙ h);
  }
    where
      row_of :
          (k : String) (q : OpenPosition F)
          → (str_eq s k ≡ true) ⊎ (str_eq s k ≡ false)
          → (if str_eq s k then none else get d k) ≡ some q
          → (find_open q.correlation_id (update_close at c ts) ≡ some (position_row q))
            × (q.symbol ≡ k)
      row_of k q (inl e) h = absurd (cc (rw e at h))
      row_of k q (inr e) h = ground (
        arith,
        eq_iff c.correlation_id q.correlation_id,
        eq_iff s k,
        find_open-update_close q.correlation_id at c ts,
        f.recorded k q,
        f.recorded s p there,
      )

      position_of :
          (id : String) (r : OpenRow F)
          → (str_eq c.correlation_id id ≡ true) ⊎ (str_eq c.correlation_id id ≡ false)
          → (if str_eq c.correlation_id id then none else find_open id ts) ≡ some r
          → (q : OpenPosition F) × (get (pop d s) r.symbol ≡ some q) × (position_row q ≡ r)
      position_of id r (inl e) h = absurd (cc (rw e at h))
      position_of id r (inr e) h =
          let (q, found, row) = f.held id r (rw e at h) in
          (
            q,
            ground (
              arith,
              get-pop d s r.symbol,
              eq_iff s r.symbol,
              eq_iff c.correlation_id id,
              find_open-id id ts r (rw e at h),
            ),
            row,
          )

  -- A position is replaced by one with the same row.
  pub put-Follows :
      (s : String) (p q : OpenPosition F) (ts : List (Trade F)) (d : Dict (OpenPosition F))
      → get d s ≡ some p
      → position_row q ≡ position_row p
      → Follows ts d
      → Follows ts (put d s q)
  put-Follows s p q ts d there same f = record {
    recorded = λ k u h. row_of k u (Bool-cases (str_eq s k)) (sym (get-put d s k q) ∙ h);
    held = λ id r h. position_of id r (Bool-cases (str_eq s r.symbol)) (f.held id r h);
  }
    where
      row_of :
          (k : String) (u : OpenPosition F)
          → (str_eq s k ≡ true) ⊎ (str_eq s k ≡ false)
          → (if str_eq s k then some q else get d k) ≡ some u
          → (find_open u.correlation_id ts ≡ some (position_row u)) × (u.symbol ≡ k)
      row_of k u (inl e) h = ground (arith, eq_iff s k, f.recorded s p there, same)
      row_of k u (inr e) h = f.recorded k u (rw e at h)

      position_of :
          (id : String) (r : OpenRow F)
          → (str_eq s r.symbol ≡ true) ⊎ (str_eq s r.symbol ≡ false)
          → (u : OpenPosition F) × (get d r.symbol ≡ some u) × (position_row u ≡ r)
          → (u : OpenPosition F) × (get (put d s q) r.symbol ≡ some u) × (position_row u ≡ r)
      position_of id r (inl e) (u, found, row) =
          (q, rw (get-put, e) refl, ground (arith, eq_iff s r.symbol, same))
      position_of id r (inr e) (u, found, row) = (u, rw (get-put, e) found, row)
