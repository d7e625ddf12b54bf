-- ===== src/PaperTrade/Engine/Invariant.antt =====
-- What every move of the ledger keeps.
use aicrypto_trader.Base.{
  ℕ, ◌+◌, ◌≤◌, ◌<◌, String, ◌≡◌, ◌⊎◌, inl, inr, Option, none, some, Bool, List, [], ◌∷◌, length,
  arith, str_eq, eq_iff, if◌then◌else◌, Option-cases,
}
use aicrypto_trader.Dict.{
  Dict, get, put, pop, IsUnique, get-put, get-pop, put-IsUnique, pop-IsUnique, length-put_new,
  length-put_old, length-pop,
}
use aicrypto_trader.Float.{Float, ◌⊕◌, nought}
use aicrypto_trader.PaperTrade.Account.{OpenPosition, Account, open_position, close, update_mark}
use aicrypto_trader.PaperTrade.Engine.Ledger.{
  Entry, opened, closed, View, Move, closes, opens, marks, Moves, here, next,
}

module _ {F : Type 0} where
  -- The openings and the closures of one symbol in the ledger.
  abbrev pub openings : String → List (Entry F) → ℕ
  openings k [] = 0
  openings k (opened s ∷ l) = if str_eq s k then openings k l + 1 else openings k l
  openings k (closed s net ∷ l) = openings k l

  abbrev pub closures : String → List (Entry F) → ℕ
  closures k [] = 0
  closures k (opened s ∷ l) = closures k l
  closures k (closed s net ∷ l) = if str_eq s k then closures k l + 1 else closures k l

  abbrev pub held : Option (OpenPosition F) → ℕ
  held none = 0
  held (some p) = 1

module _ {F : Type 0} ⦃fl : Float F⦄ where
  -- The sum of the net profits of all closures.
  abbrev pub realized : List (Entry F) → F
  realized [] = nought
  realized (opened s ∷ l) = realized l
  realized (closed s net ∷ l) = realized l ⊕ net

  abbrev pub positions : View F → Dict (OpenPosition F)
  positions v = v.account.open_positions

  -- No symbol has two positions, at most `cap` are open, none of them has been funded, and each
  -- symbol has been opened once more than closed if it has a position, and as often if not.
  pub record IsOrderly (cap : ℕ) (v : View F) : Type 0 where
    pub unique : IsUnique (positions v)
    pub capped : length (positions v) ≤ cap
    pub unfunded :
        (k : String) (p : OpenPosition F) → get (positions v) k ≡ some p → p.funding_paid ≡ nought
    pub alternates :
        (k : String) → openings k v.ledger ≡ closures k v.ledger + held (get (positions v) k)

  pub close-open_positions :
      (a : Account F) (s : String) (x fees net : F) (b : Account F)
      → close a s x fees ≡ some (net, b)
      → b.open_positions ≡ pop a.open_positions s
  unfolding close
  close-open_positions a s x fees net b h = ground arith

  pub update_mark-open_positions :
      (a : Account F) (s : String) (mark : F)
      → ((get a.open_positions s ≡ none) × (update_mark a s mark ≡ a))
        ⊎ ((p : OpenPosition F) × (get a.open_positions s ≡ some p)
            × (update_mark a s mark ≡ record a {
              open_positions = put a.open_positions s (record p { mark_price = mark });
            }))
  unfolding update_mark
  update_mark-open_positions a s mark = elim (Option-cases (get a.open_positions s)) [
    | inl h ↦ inl (h, rw (h, update_mark))
    | inr (p, h) ↦ inr (p, h, rw (h, update_mark))
  ]

  pub closes-IsOrderly :
      (cap : ℕ) (v : View F) (s : String) (p : OpenPosition F) (net : F) (a : Account F) (t : Bool)
      (q : F)
      → get (positions v) s ≡ some p
      → a.open_positions ≡ pop (positions v) s
      → IsOrderly cap v
      → IsOrderly cap
          (record { account = a; ledger = closed s net ∷ v.ledger; tripped = t; pnl = q })
  closes-IsOrderly cap v s p net a t q found e o = record {
    unique = rw e (pop-IsUnique (positions v) s o.unique);
    capped = rw e (omega (arith, length-pop (positions v) s, o.capped));
    unfunded = λ k r h. ground (arith, e, get-pop (positions v) s k, o.unfunded k r);
    alternates = λ k. rw e (ground (arith, get-pop (positions v) s k, eq_iff s k, o.alternates k));
  }

  pub opens-IsOrderly :
      (cap : ℕ) (v : View F) (p : OpenPosition F)
      → get (positions v) p.symbol ≡ none
      → length (positions v) < cap
      → p.funding_paid ≡ nought
      → IsOrderly cap v
      → IsOrderly cap
          (record v { account = open_position v.account p; ledger = opened p.symbol ∷ v.ledger })
  unfolding open_position
  opens-IsOrderly cap v p new room unfunded o = record {
    unique = put-IsUnique (positions v) p.symbol p o.unique;
    capped = omega (arith, length-put_new (positions v) p.symbol p new);
    unfunded = λ k r h. ground (arith, get-put (positions v) p.symbol k p, o.unfunded k r);
    alternates =
        λ k. ground (arith, get-put (positions v) p.symbol k p, eq_iff p.symbol k, o.alternates k);
  }

  put_mark-IsOrderly :
      (cap : ℕ) (v : View F) (s : String) (p : OpenPosition F) (mark : F)
      → get (positions v) s ≡ some p
      → IsOrderly cap v
      → IsOrderly cap (record v {
        account = record (v.account) {
          open_positions = put (positions v) s (record p { mark_price = mark });
        };
      })
  put_mark-IsOrderly cap v s p mark found o =
      let marked : OpenPosition F = record p { mark_price = mark } in
      record {
        unique = put-IsUnique (positions v) s marked o.unique;
        capped = omega (arith, length-put_old (positions v) s marked (λ h. cc h), o.capped);
        unfunded = λ k r h.
            ground (arith, get-put (positions v) s k marked, o.unfunded k r, o.unfunded s p found);
        alternates =
            λ k. ground (arith, get-put (positions v) s k marked, eq_iff s k, o.alternates k);
      }

  pub marks-IsOrderly :
      (cap : ℕ) (v : View F) (s : String) (mark : F)
      → IsOrderly cap v
      → IsOrderly cap (record v { account = update_mark v.account s mark })
  marks-IsOrderly cap v s mark o = elim (update_mark-open_positions v.account s mark) [
    | inl same ↦ rw (same.1) o
    | inr there ↦ rw (there.2) (put_mark-IsOrderly cap v s there.0 mark there.1 o)
  ]

  pub Move-IsOrderly : {cap : ℕ} {v w : View F} → Move cap v w → IsOrderly cap v → IsOrderly cap w
  Move-IsOrderly {cap} {v} (closes s p x fees net a t found h latch e) o = rw e (
      closes-IsOrderly cap v s p net a t _ found (close-open_positions v.account s x fees net a h)
        o)
  Move-IsOrderly {cap} {v} (opens p new room calm unfunded e) o =
      rw e (opens-IsOrderly cap v p new room unfunded o)
  Move-IsOrderly {cap} {v} (marks s mark e) o = rw e (marks-IsOrderly cap v s mark o)

  pub Moves-IsOrderly : {cap : ℕ} {v w : View F} → Moves cap v w → IsOrderly cap v → IsOrderly cap w
  Moves-IsOrderly here o = o
  Moves-IsOrderly (next ms m) o = Move-IsOrderly m (Moves-IsOrderly ms o)
