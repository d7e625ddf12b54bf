-- ===== src/Risk/Breakers/Crossing.antt =====
-- When the breakers trip, over a whole series of updates.
use aicrypto_trader.Base.{
  ◌≡◌, refl, ap, ◌↔◌, ◌⊎◌, inl, inr, true, List, [], ◌∷◌, ◌++◌, arith, if◌then◌else◌,
}
use aicrypto_trader.Float.{Float, ◌⊕◌, ◌⊖◌, ◌⊘◌, le, lt, nought, sum_from}
use aicrypto_trader.Risk.Breakers.{
  DailyLossBreaker, MaxDrawdownBreaker, update_pnl, update_equity, new_daily_loss, new_max_drawdown,
  raise_peak,
}

module _ {F : Type 0} ⦃fl : Float F⦄ where
  pub update_pnls : DailyLossBreaker F → List F → DailyLossBreaker F
  update_pnls b [] = b
  update_pnls b (d ∷ ds) = update_pnls (update_pnl b d) ds

  pub update_equities : MaxDrawdownBreaker F → List F → MaxDrawdownBreaker F
  update_equities b [] = b
  update_equities b (x ∷ xs) = update_equities (update_equity b x) xs

  -- A first part of the deltas, not empty, brings the sum down to the limit.
  abbrev pub Crosses : F → F → List F → Type 0
  Crosses limit start ds =
      (d : F) × (early : List F) × (late : List F) × (ds ≡ d ∷ (early ++ late))
      × (le (sum_from start (d ∷ early)) (fl.neg (fl.abs limit)) ≡ true)

  Crosses-cons :
      (limit start d : F) (ds : List F)
      → Crosses limit (start ⊕ d) ds
      → Crosses limit start (d ∷ ds)
  Crosses-cons limit start d ds (x, early, late, e, low) =
      (d, x ∷ early, late, ground (arith, e), low)

  update_pnl-threshold : (b : DailyLossBreaker F) (d : F) → (update_pnl b d).threshold ≡ b.threshold
  unfolding update_pnl
  update_pnl-threshold b d = ground arith

  update_pnl-cumulative_pnl :
      (b : DailyLossBreaker F) (d : F) → (update_pnl b d).cumulative_pnl ≡ b.cumulative_pnl ⊕ d
  unfolding update_pnl
  update_pnl-cumulative_pnl b d = ground arith

  pub update_pnl-latched :
      (b : DailyLossBreaker F) (d : F)
      → b.state.tripped ≡ true
      → (update_pnl b d).state.tripped ≡ true
  unfolding update_pnl
  update_pnl-latched b d h = ground arith

  update_pnl-trips :
      (b : DailyLossBreaker F) (d : F)
      → le (b.cumulative_pnl ⊕ d) (fl.neg (fl.abs b.threshold)) ≡ true
      → (update_pnl b d).state.tripped ≡ true
  unfolding update_pnl
  update_pnl-trips b d h = ground arith

  update_pnl-tripped :
      (b : DailyLossBreaker F) (d : F)
      → (update_pnl b d).state.tripped ≡ true
      → (b.state.tripped ≡ true) ⊎ (le (b.cumulative_pnl ⊕ d) (fl.neg (fl.abs b.threshold)) ≡ true)
  unfolding update_pnl
  update_pnl-tripped b d h = ground arith

  update_pnls-latched :
      (ds : List F) (b : DailyLossBreaker F)
      → b.state.tripped ≡ true
      → (update_pnls b ds).state.tripped ≡ true
  unfolding update_pnls
  update_pnls-latched [] b h = h
  update_pnls-latched (d ∷ ds) b h =
      update_pnls-latched ds (update_pnl b d) (update_pnl-latched b d h)

  update_pnls-Crosses :
      (ds : List F) (b : DailyLossBreaker F)
      → (update_pnls b ds).state.tripped ≡ true
      → (b.state.tripped ≡ true) ⊎ Crosses b.threshold b.cumulative_pnl ds
  unfolding update_pnls
  update_pnls-Crosses [] b h = inl h
  update_pnls-Crosses (d ∷ ds) b h = elim (update_pnls-Crosses ds (update_pnl b d) h) [
    | inl now ↦ elim (update_pnl-tripped b d now) [
      | inl before ↦ inl before
      | inr low ↦ inr (d, [], ds, refl, low)
    ]
    | inr later ↦
        let there : Crosses b.threshold (b.cumulative_pnl ⊕ d) ds =
          rw (update_pnl-threshold, update_pnl-cumulative_pnl) at later in
        inr (Crosses-cons b.threshold b.cumulative_pnl d ds there)
  ]

  Crosses-update_pnls :
      (d : F) (early late : List F) (b : DailyLossBreaker F)
      → le (sum_from b.cumulative_pnl (d ∷ early)) (fl.neg (fl.abs b.threshold)) ≡ true
      → (update_pnls b (d ∷ (early ++ late))).state.tripped ≡ true
  unfolding update_pnls
  Crosses-update_pnls d [] late b low =
      update_pnls-latched late (update_pnl b d) (update_pnl-trips b d low)
  Crosses-update_pnls d (x ∷ early) late b low =
      Crosses-update_pnls x early late (update_pnl b d)
        (rw (update_pnl-threshold, update_pnl-cumulative_pnl) low)

  -- A daily loss breaker that starts fresh is tripped after a series of profits and losses exactly
  -- when the running sum has reached minus the threshold at some point of the series; a recovery
  -- afterwards does not release it.
  pub update_pnls-tripped_iff :
      (balance pct : F) (ds : List F)
      → ((update_pnls (new_daily_loss balance pct) ds).state.tripped ≡ true)
        ↔ Crosses (fl.mul balance pct) nought ds
  update_pnls-tripped_iff balance pct ds = (
    λ h. elim (update_pnls-Crosses ds (new_daily_loss balance pct) h) [
      | inl early ↦ absurd (cc early)
      | inr c ↦ c
    ],
    λ (d, early, late, e, low).
        rw e (Crosses-update_pnls d early late (new_daily_loss balance pct) low),
  )

  -- The highest of a number and a list: a later one counts only if it is greater than all before it.
  abbrev pub highest : F → List F → F
  highest top [] = top
  highest top (x ∷ xs) = highest (if lt top x then x else top) xs

  -- The number lies below a positive top by at least the threshold as a fraction of it.
  abbrev pub IsFarBelow : F → F → F → Type 0
  IsFarBelow pct top x = (lt nought top ≡ true) × (le pct ((top ⊖ x) ⊘ top) ≡ true)

  -- A report of the series lies far below the highest of the start, the reports before it and itself.
  abbrev pub FallsFar : F → F → List F → Type 0
  FallsFar pct start xs =
      (early : List F) × (x : F) × (late : List F) × (xs ≡ early ++ (x ∷ late))
      × IsFarBelow pct (highest start (early ++ (x ∷ []))) x

  FallsFar-nil : (pct start : F) → ¬ FallsFar pct start []
  FallsFar-nil pct start ([], x, late, e, far) = absurd (cc e)
  FallsFar-nil pct start (y ∷ early, x, late, e, far) = absurd (cc e)

  FallsFar-cons :
      (pct start x : F) (xs : List F)
      → FallsFar pct start (x ∷ xs)
        ↔ (IsFarBelow pct (raise_peak start x) x ⊎ FallsFar pct (raise_peak start x) xs)
  FallsFar-cons pct start x xs = (
    λ (early, y, late, e, far). first early y late e far,
    λ h. elim h [
      | inl far ↦ ([], x, xs, refl, far)
      | inr (early, y, late, e, far) ↦ (x ∷ early, y, late, ap (λ l. x ∷ l) e, far)
    ],
  )
    where
      first :
          (early : List F) (y : F) (late : List F)
          → x ∷ xs ≡ early ++ (y ∷ late)
          → IsFarBelow pct (highest start (early ++ (y ∷ []))) y
          → IsFarBelow pct (raise_peak start x) x ⊎ FallsFar pct (raise_peak start x) xs
      first [] y late e far = let same : x ≡ y = cc e in inl (rw same far)
      first (z ∷ early) y late e far =
          let same : x ≡ z = cc e in
          let rest : xs ≡ early ++ (y ∷ late) = cc e in inr (early, y, late, rest, rw same far)

  update_equity_fields :
      (b : MaxDrawdownBreaker F) (x : F)
      → let b' = update_equity b x in
        (b'.threshold_pct ≡ b.threshold_pct) × (b'.peak ≡ raise_peak b.peak x)
  unfolding update_equity
  update_equity_fields b x = ground arith

  update_equity-tripped_iff :
      (b : MaxDrawdownBreaker F) (x : F)
      → let top = raise_peak b.peak x in
        ((update_equity b x).state.tripped ≡ true) ↔ (
          (b.state.tripped ≡ true)
          ⊎ ((lt nought top ≡ true) × (le b.threshold_pct ((top ⊖ x) ⊘ top) ≡ true)))
  unfolding update_equity
  update_equity-tripped_iff b x = ground arith

  update_equities-FallsFar :
      (xs : List F) (b : MaxDrawdownBreaker F)
      → ((update_equities b xs).state.tripped ≡ true)
        ↔ ((b.state.tripped ≡ true) ⊎ FallsFar b.threshold_pct b.peak xs)
  unfolding update_equities
  update_equities-FallsFar [] b = (
    λ h. inl h,
    λ h. elim h [ inl t ↦ t | inr f ↦ absurd (FallsFar-nil b.threshold_pct b.peak f) ],
  )
  update_equities-FallsFar (x ∷ xs) b =
      let ih = update_equities-FallsFar xs (update_equity b x) in
      let step = update_equity-tripped_iff b x in
      let fields = update_equity_fields b x in
      let cons = FallsFar-cons b.threshold_pct b.peak x xs in
      (
        λ h. elim (ih.0 h) [
          | inl now ↦ elim (step.0 now) [
            | inl before ↦ inl before
            | inr far ↦ inr (cons.1 (inl far))
          ]
          | inr later ↦ inr (cons.1 (inr (rw (fields.0, fields.1) at later)))
        ],
        λ h. ih.1 (elim h [
          | inl before ↦ inl (step.1 (inl before))
          | inr there ↦ elim (cons.0 there) [
            | inl far ↦ inl (step.1 (inr far))
            | inr later ↦ inr (rw (fields.0, fields.1) later)
          ]
        ]),
      )

  -- A drawdown breaker that starts fresh is tripped after a series of equity reports exactly when
  -- one of them lies below the highest report so far, itself included and starting from zero, by at
  -- least the threshold as a fraction of that positive peak.
  pub update_equities-tripped_iff :
      (pct : F) (xs : List F)
      → ((update_equities (new_max_drawdown pct) xs).state.tripped ≡ true) ↔ FallsFar pct nought xs
  update_equities-tripped_iff pct xs =
      let general = update_equities-FallsFar xs (new_max_drawdown pct) in
      (
        λ h. elim (general.0 h) [ inl early ↦ absurd (cc early) | inr f ↦ f ],
        λ f. general.1 (inr f),
      )
