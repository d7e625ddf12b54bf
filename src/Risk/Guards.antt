-- ===== src/Risk/Guards.antt =====
-- backend/src/cryptoswarm/risk/guards.py: the stateless checks of one signal.
pub mod Accepted
use aicrypto_trader.Base.{ℕ, String, Bool, not, ◌||◌, leb, if◌then◌else◌}
use aicrypto_trader.Int.{ℤ, pos, ltb_ℤ}
use aicrypto_trader.Float.{Float, ◌⊗◌, le, lt, nought}
use aicrypto_trader.Config.{Settings, symbol_list, is_listed}
use aicrypto_trader.Bus.Messages.{
  Signal, VetoReason, not_configured, positions_full, size_exceeds, leverage_exceeds,
  sl_tp_not_positive, BreakerName, symbol_guard, concurrent_positions_guard, position_size_guard,
  leverage_guard, sl_tp_guard,
}

-- `GuardResult`; a result that is allowed carries no reason and no name.
pub data GuardResult (F : Type 0) : Type 0 where
  allowed : GuardResult F
  refused : VetoReason F → BreakerName → GuardResult F

module _ {F : Type 0} ⦃fl : Float F⦄ where
  -- `SignalGuard(settings, open_positions, current_equity).check(signal)`
  unfoldable pub check : Settings F → ℕ → F → Signal F → GuardResult F
  check s open_positions current_equity signal =
      let max_size = current_equity ⊗ s.risk.max_position_pct in
      if not (is_listed signal.symbol (symbol_list s))
      then refused (not_configured signal.symbol) symbol_guard
      else if leb s.risk.max_concurrent_positions open_positions
      then refused (positions_full s.risk.max_concurrent_positions) concurrent_positions_guard
      else if lt max_size signal.size_usd
      then refused (size_exceeds signal.size_usd max_size) position_size_guard
      else if ltb_ℤ (pos s.risk.max_leverage) signal.leverage
      then refused (leverage_exceeds signal.leverage s.risk.max_leverage) leverage_guard
      else if le signal.sl nought || le signal.tp nought
      then refused sl_tp_not_positive sl_tp_guard
      else allowed
