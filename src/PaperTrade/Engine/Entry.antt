-- ===== src/PaperTrade/Engine/Entry.antt =====
-- When a signal for a symbol without a position becomes a trade.
use aicrypto_trader.Base.{
  String, ◌≡◌, ◌⊎◌, refl, inl, inr, ap, Option, none, true, false, ◌∷◌, arith, length, Bool-cases,
}
use aicrypto_trader.Dict.{get}
use aicrypto_trader.Int.{is_zero}
use aicrypto_trader.Float.{Float, le, nought}
use aicrypto_trader.Config.{Settings}
use aicrypto_trader.Bus.Messages.{
  Signal, VetoReason, BreakerName, breaker_tripped, daily_loss_or_drawdown, risk_veto,
}
use aicrypto_trader.Risk.Guards.{GuardResult, allowed, refused, check}
use aicrypto_trader.Risk.Guards.Accepted.{IsWithinLimits, check-IsWithinLimits}
use aicrypto_trader.PaperTrade.Result.{Fault, Result, ok, err, value_error, zero_division}
use aicrypto_trader.PaperTrade.Math.{calc_qty, calc_isolated_margin, calc_liq_price}
use aicrypto_trader.PaperTrade.Account.{OpenPosition, equity, open_position}
use aicrypto_trader.PaperTrade.Engine.{Engine, done, raised, Step, is_tripped}
use aicrypto_trader.PaperTrade.Engine.Signals.{
  entry_price_of, new_position, book_fill, fill, pass_guards, pass_breakers, process_signal,
}
use aicrypto_trader.PaperTrade.Engine.Ledger.{opened, entries}
use aicrypto_trader.PaperTrade.Engine.Refines.{book_fill-view}

module _ {F : Type 0} ⦃fl : Float F⦄ (cfg : Settings F) (json_entry : String → Option F) where
  -- No breaker is tripped, the guards' limits hold, the entry price is not zero or less, and the
  -- leverage is not zero.
  pub record IsExecutable (s : Signal F) (e : Engine F) : Type 0 where
    pub calm : is_tripped e ≡ false
    pub within : IsWithinLimits cfg (length e.account.open_positions) (equity e.account) s
    pub priced : le (entry_price_of json_entry e.last_marks s) nought ≡ false
    pub leveraged : is_zero s.leverage ≡ false

  -- A position of the signal's terms is open, and one executed trade was published.
  abbrev pub IsExecuted : Signal F → Engine F → Step F → Type 0
  IsExecuted s e r =
      (p : OpenPosition F) × (r.0 ≡ done)
      × (r.1.account ≡ open_position e.account p)
      × (entries r.1.published ≡ opened s.symbol ∷ entries e.published)
      × (p.symbol ≡ s.symbol)
      × (p.side ≡ s.side)
      × (p.sl ≡ s.sl)
      × (p.tp ≡ s.tp)
      × (p.entry_price ≡ entry_price_of json_entry e.last_marks s)

  -- The handler returns with one more publication, the veto of the signal, and no other change.
  abbrev pub IsVetoed : Signal F → VetoReason F → BreakerName → Engine F → Step F → Type 0
  IsVetoed s reason name e r =
      let veto = risk_veto (record {
        original_correlation_id = s.correlation_id;
        reason = reason;
        breaker_name = name;
      }) in
      r ≡ (done, record e { published = veto ∷ e.published })

  -- The account and the trades are as before: the signal was vetoed, by the tripped breakers or by
  -- the guards, or it passed both and the fill raised before it wrote anything.
  abbrev pub IsDeclined : Signal F → Engine F → Step F → Type 0
  IsDeclined s e r =
      let within = IsWithinLimits cfg (length e.account.open_positions) (equity e.account) s in
      (r.1.account ≡ e.account)
      × (entries r.1.published ≡ entries e.published)
      × (((is_tripped e ≡ true) × IsVetoed s breaker_tripped daily_loss_or_drawdown e r)
          ⊎ ((is_tripped e ≡ false)
              × ¬ within
              × ((reason : VetoReason F) × (name : BreakerName) × IsVetoed s reason name e r))
          ⊎ ((is_tripped e ≡ false) × within × ((x : Fault) × (r ≡ (raised x, e)))))

  -- The terms that a new position takes over.
  abbrev HasTerms : Signal F → F → OpenPosition F → Type 0
  HasTerms s price p =
      (p.symbol ≡ s.symbol)
      × (p.side ≡ s.side)
      × (p.sl ≡ s.sl)
      × (p.tp ≡ s.tp)
      × (p.entry_price ≡ price)

  new_position-HasTerms :
      (now price : F) (s : Signal F) (p : OpenPosition F)
      → new_position cfg now s price ≡ ok p
      → HasTerms s price p
  unfolding new_position
  new_position-HasTerms now price s p h = ground arith

  new_position_succeeds :
      (now price : F) (s : Signal F)
      → le price nought ≡ false
      → is_zero s.leverage ≡ false
      → (p : OpenPosition F) × (new_position cfg now s price ≡ ok p)
  unfolding new_position calc_qty calc_isolated_margin calc_liq_price
  new_position_succeeds now price s h z = go (new_position cfg now s price) refl
    where
      go :
          (r : Result (OpenPosition F))
          → new_position cfg now s price ≡ r
          → (p : OpenPosition F) × (new_position cfg now s price ≡ ok p)
      go (ok p) e = (p, e)
      go (err x) e = absurd (ground arith)

  new_position-err :
      (now price : F) (s : Signal F)
      → (le price nought ≡ true) ⊎ (is_zero s.leverage ≡ true)
      → (x : Fault) × (new_position cfg now s price ≡ err x)
  unfolding new_position calc_qty calc_isolated_margin calc_liq_price
  new_position-err now price s (inl h) = (value_error, rw h)
  new_position-err now price s (inr z) = elim (Bool-cases (le price nought)) [
    | inl h ↦ (value_error, rw h)
    | inr h ↦ (zero_division, rw (h, z))
  ]

  execution :
      (now : F) (s : Signal F) (e : Engine F) (p : OpenPosition F)
      → get e.account.open_positions s.symbol ≡ none
      → IsExecutable s e
      → new_position cfg now s (entry_price_of json_entry e.last_marks s) ≡ ok p
      → process_signal cfg json_entry now s e ≡ (done, book_fill s p e)
  unfolding process_signal pass_breakers pass_guards fill
  execution now s e p new x made =
      let open_now = length e.account.open_positions in
      let accepted = (check-IsWithinLimits cfg open_now (equity e.account) s).1 x.within in
      rw (new, process_signal) (rw (x.calm) (rw (accepted, pass_guards) (rw (made, fill))))

  -- A signal for a symbol without an open position is executed if no breaker is tripped, the guards'
  -- limits hold, the entry price is not zero or less and the leverage is not zero: the handler
  -- returns, the account has the new position, of the signal's symbol, side and levels and at the
  -- entry price, and exactly one executed trade was published.
  pub process_signal_executes :
      (now : F) (s : Signal F) (e : Engine F)
      → get e.account.open_positions s.symbol ≡ none
      → IsExecutable s e
      → IsExecuted s e (process_signal cfg json_entry now s e)
  process_signal_executes now s e new x =
      let price = entry_price_of json_entry e.last_marks s in
      let (p, made) = new_position_succeeds now price s x.priced x.leveraged in
      let (symbol, side, sl, tp, entry) = new_position-HasTerms now price s p made in
      let booked = book_fill-view cfg s p e in
      rw (execution now s e p new x made) (
        p,
        refl,
        ap (λ v. v.account) booked,
        ap (λ v. v.ledger) booked,
        symbol,
        side,
        sl,
        tp,
        entry,
      )

  veto_or_raise :
      (now : F) (s : Signal F) (e : Engine F) (g : GuardResult F)
      → check cfg (length e.account.open_positions) (equity e.account) s ≡ g
      → is_tripped e ≡ false
      → ¬ IsExecutable s e
      → IsDeclined s e (pass_guards cfg json_entry now s e)
  unfolding pass_guards fill
  veto_or_raise now s e (refused reason name) h calm unfit =
      let outside : ¬ IsWithinLimits cfg (length e.account.open_positions) (equity e.account) s =
        λ within. absurd (cc (h, (check-IsWithinLimits cfg _ _ s).1 within)) in
      rw (h, pass_guards) (refl, refl, inr (inl (calm, outside, (reason, name, refl))))
  veto_or_raise now s e allowed h calm unfit =
      let price = entry_price_of json_entry e.last_marks s in
      let within = (check-IsWithinLimits cfg _ _ s).0 h in
      let (x, failed) = new_position-err now price s (elim (Bool-cases (le price nought)) [
        | inl low ↦ inl low
        | inr priced ↦ elim (Bool-cases (is_zero s.leverage)) [
          | inl zero ↦ inr zero
          | inr leveraged ↦ absurd (
              unfit
                (record { calm = calm; within = within; priced = priced; leveraged = leveraged }))
        ]
      ]) in
      rw (h, pass_guards) (rw (failed, fill) (refl, refl, inr (inr (calm, within, (x, refl)))))

  pass_breakers_calm :
      (now : F) (s : Signal F) (e : Engine F)
      → is_tripped e ≡ false
      → pass_breakers cfg json_entry now s e ≡ pass_guards cfg json_entry now s e
  unfolding pass_breakers
  pass_breakers_calm now s e calm = rw calm refl

  -- Any other signal for a symbol without an open position changes neither the account nor the
  -- published trades. If a breaker is tripped, or else if the guards' limits do not hold, the handler
  -- returns, and publishes exactly one veto, with the signal's correlation id and nothing else; with
  -- a tripped breaker it names the breakers as the reason. Otherwise the handler raises and leaves
  -- the whole engine as it was.
  pub process_signal_declines :
      (now : F) (s : Signal F) (e : Engine F)
      → get e.account.open_positions s.symbol ≡ none
      → ¬ IsExecutable s e
      → IsDeclined s e (process_signal cfg json_entry now s e)
  unfolding process_signal pass_breakers
  process_signal_declines now s e new unfit = elim (Bool-cases (is_tripped e)) [
    | inl tripped ↦ rw (new, process_signal) (rw tripped (refl, refl, inl (refl, refl)))
    | inr calm ↦
        rw (new, process_signal)
          (rw (pass_breakers_calm now s e calm) (veto_or_raise now s e _ refl calm unfit))
  ]
