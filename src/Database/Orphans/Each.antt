-- ===== src/Database/Orphans/Each.antt =====
-- `close_orphan_positions` of storage/postgres.py, row by row.
use aicrypto_trader.Base.{
  ℕ, String, ◌≡◌, refl, Option, none, some, true, false, ◌&&◌, List, [], ◌∷◌, All, map, length,
  str_eq, eq_iff, str_eq_refl, arith, if◌then◌else◌, Bool-cases, if_intro, inl, inr, ◌∙◌,
}
use aicrypto_trader.Dict.{Dict}
use aicrypto_trader.Float.{Float}
use aicrypto_trader.Database.{Trade, is_open, has_trade}
use aicrypto_trader.Database.Orphans.{
  open_rows, exit_px, orphan_pnl, reset_trade, close_orphan, close_each, close_orphan_positions,
}

module _ {F : Type 0} ⦃fl : Float F⦄ where
  -- No correlation id stands twice, as the table's constraint has it.
  abbrev pub IsKeyed : List (Trade F) → Type 0
  IsKeyed [] = Unit
  IsKeyed (t ∷ ts) = (has_trade t.correlation_id ts ≡ false) × IsKeyed ts

  -- An open trade closed at the known price of its symbol, or else at its entry price.
  abbrev pub reset_at : ℕ → Dict F → Trade F → Trade F
  reset_at now prices t =
      let exit = exit_px prices t in
      reset_trade now exit (orphan_pnl t.side exit t.entry_price t.qty) t

  abbrev pub reset_open : ℕ → Dict F → Trade F → Trade F
  reset_open now prices t = if is_open t then reset_at now prices t else t

  -- One UPDATE on one row.
  abbrev update_row : ℕ → Dict F → Trade F → Trade F → Trade F
  update_row now prices row t =
      let exit = exit_px prices row in
      if str_eq t.correlation_id row.correlation_id && is_open t
      then reset_trade now exit (orphan_pnl row.side exit row.entry_price row.qty) t
      else t

  update_rows : ℕ → Dict F → List (Trade F) → Trade F → Trade F
  update_rows now prices [] t = t
  update_rows now prices (row ∷ rows) t = update_rows now prices rows (update_row now prices row t)

  close_each_nil :
      (now : ℕ) (prices : Dict F) (rows : List (Trade F)) → close_each now prices rows [] ≡ []
  unfolding close_each close_orphan
  close_each_nil now prices [] = refl
  close_each_nil now prices (row ∷ rows) = close_each_nil now prices rows

  close_each_cons :
      (now : ℕ) (prices : Dict F) (rows : List (Trade F)) (t : Trade F) (ts : List (Trade F))
      → close_each now prices rows (t ∷ ts)
        ≡ update_rows now prices rows t ∷ close_each now prices rows ts
  unfolding close_each close_orphan update_rows
  close_each_cons now prices [] t ts = refl
  close_each_cons now prices (row ∷ rows) t ts =
      close_each_cons now prices rows (update_row now prices row t) _

  -- A closed trade stays, and so does one whose id is not among the rows.
  update_rows_closed :
      (now : ℕ) (prices : Dict F) (rows : List (Trade F)) (t : Trade F)
      → is_open t ≡ false
      → update_rows now prices rows t ≡ t
  unfolding update_rows
  update_rows_closed now prices [] t h = refl
  update_rows_closed now prices (row ∷ rows) t h =
      let same : update_row now prices row t ≡ t = ground arith in
      rw same (update_rows_closed now prices rows t h)

  abbrev first_row : String → List (Trade F) → Option (Trade F)
  first_row id [] = none
  first_row id (r ∷ rs) = if str_eq r.correlation_id id then some r else first_row id rs

  abbrev IsFound : List (Trade F) → Trade F → Type 0
  IsFound rows t = is_open t ≡ true → first_row t.correlation_id rows ≡ some t

  update_rows_found :
      (now : ℕ) (prices : Dict F) (rows : List (Trade F)) (t : Trade F)
      → IsFound rows t
      → update_rows now prices rows t ≡ reset_open now prices t
  unfolding update_rows
  update_rows_found now prices [] t h = ground arith
  update_rows_found now prices (row ∷ rows) t h = elim (Bool-cases (is_open t)) [
    | inr closed ↦ update_rows_closed now prices (row ∷ rows) t closed ∙ ground arith
    | inl opened ↦ elim (Bool-cases (str_eq row.correlation_id t.correlation_id)) [
      | inr other ↦
          let same : update_row now prices row t ≡ t = ground (
            arith,
            eq_iff row.correlation_id t.correlation_id,
            eq_iff t.correlation_id row.correlation_id,
          ) in
          rw same (update_rows_found now prices rows t (λ o. ground arith))
      | inl this ↦ it (ground arith) opened
    ]
  ]
    where
      it :
          some row ≡ some t
          → is_open t ≡ true
          → update_rows now prices (row ∷ rows) t ≡ reset_open now prices t
      it same opened =
          let reset : update_row now prices row t ≡ reset_at now prices t =
            ground (arith, str_eq_refl t.correlation_id) in
          rw reset (update_rows_closed now prices rows (reset_at now prices t) refl ∙ ground arith)

  -- A row of another id in front does not matter.
  first_row_past :
      (r : Trade F) (rows ts : List (Trade F))
      → has_trade r.correlation_id ts ≡ false
      → All (IsFound rows) ts
      → All (IsFound (r ∷ rows)) ts
  unfolding has_trade
  first_row_past r rows [] h f = tt
  first_row_past r rows (t ∷ ts) h (f, fs) = (
    ground
        (arith, eq_iff r.correlation_id t.correlation_id, eq_iff t.correlation_id r.correlation_id),
    first_row_past r rows ts (ground arith) fs,
  )

  open_rows-IsFound : (ts : List (Trade F)) → IsKeyed ts → All (IsFound (open_rows ts)) ts
  unfolding open_rows
  open_rows-IsFound [] k = tt
  open_rows-IsFound (t ∷ ts) (new, k) =
      let rest = open_rows-IsFound ts k in
      if_intro (λ rows. All (IsFound rows) (t ∷ ts)) (is_open t) _ _
        (λ opened. (
          (λ o. ground (arith, str_eq_refl t.correlation_id)),
          first_row_past t (open_rows ts) ts new rest,
        ))
        (λ closed. ((λ o. absurd (cc (o, closed))), rest))

  close_each-map :
      (now : ℕ) (prices : Dict F) (rows ts : List (Trade F))
      → All (IsFound rows) ts
      → close_each now prices rows ts ≡ map (reset_open now prices) ts
  close_each-map now prices rows [] f = close_each_nil now prices rows
  close_each-map now prices rows (t ∷ ts) (f, fs) =
      rw (close_each_cons now prices rows t ts)
        (rw (update_rows_found now prices rows t f, close_each-map now prices rows ts fs) refl)

  -- When no correlation id stands twice in the table, the start of a session closes exactly the
  -- trades that are open, each at the known price of its symbol or else at its entry price, leaves
  -- the others as they are, and returns the number of those it closed.
  pub close_orphan_positions-map :
      (now : ℕ) (prices : Dict F) (trades : List (Trade F))
      → IsKeyed trades
      → close_orphan_positions now prices trades
        ≡ (length (open_rows trades), map (reset_open now prices) trades)
  unfolding close_orphan_positions
  close_orphan_positions-map now prices trades k =
      rw (close_each-map now prices (open_rows trades) trades (open_rows-IsFound trades k)) refl
