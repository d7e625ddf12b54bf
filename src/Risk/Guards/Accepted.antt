-- ===== src/Risk/Guards/Accepted.antt =====
-- What a signal that passes the guards satisfies.
use aicrypto_trader.Base.{ℕ, ◌<◌, ◌≤◌, ◌≡◌, ◌↔◌, true, false, arith}
use aicrypto_trader.Int.{pos_part}
use aicrypto_trader.Float.{Float, ◌⊗◌, le, lt, nought}
use aicrypto_trader.Config.{Settings, symbol_list, is_listed}
use aicrypto_trader.Bus.Messages.{Signal}
use aicrypto_trader.Risk.Guards.{check, allowed}

module _ {F : Type 0} ⦃fl : Float F⦄ where
  -- The limits on one signal, beside `open_positions` positions and at the equity given.
  pub record IsWithinLimits (s : Settings F) (open_positions : ℕ) (equity : F) (signal : Signal F)
      : Type 0 where
    pub listed : is_listed signal.symbol (symbol_list s) ≡ true
    pub room : open_positions < s.risk.max_concurrent_positions
    pub size : lt (equity ⊗ s.risk.max_position_pct) signal.size_usd ≡ false
    pub leverage : pos_part signal.leverage ≤ s.risk.max_leverage
    pub sl_positive : le signal.sl nought ≡ false
    pub tp_positive : le signal.tp nought ≡ false

  -- The guard allows a signal exactly when its symbol is configured, fewer positions are open than
  -- the maximum, its size does not exceed the maximal part of the equity, its leverage does not
  -- exceed the maximum, and neither its stop loss nor its take profit is zero or less.
  pub check-IsWithinLimits :
      (s : Settings F) (n : ℕ) (equity : F) (signal : Signal F)
      → (check s n equity signal ≡ allowed) ↔ IsWithinLimits s n equity signal
  unfolding check
  check-IsWithinLimits s n equity signal = (
    λ h. record {
      listed = ground arith;
      room = ground arith;
      size = ground arith;
      leverage = ground arith;
      sl_positive = ground arith;
      tp_positive = ground arith;
    },
    λ w. ground (arith, w.listed, w.room, w.size, w.leverage, w.sl_positive, w.tp_positive),
  )
