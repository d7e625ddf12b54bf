-- ===== src/Tests/Risk.antt =====
-- The breakers and the guards on sample inputs.
use aicrypto_trader.Base.{◌≡◌, ◌↔◌, refl, some, List, [], ◌∷◌, true}
use aicrypto_trader.Int.{negsuc}
use aicrypto_trader.Float.{literal, nought}
use aicrypto_trader.Float.Fixed.{Fixed, fixed_float}
use aicrypto_trader.Config.{symbol_list, is_listed, assert_strong_secrets, weak_secret_key}
use aicrypto_trader.Bus.Messages.{long}
use aicrypto_trader.Risk.Breakers.{new_daily_loss, new_max_drawdown}
use aicrypto_trader.Risk.Breakers.Crossing.{
  update_pnls, update_equities, Crosses, FallsFar, update_pnls-tripped_iff,
  update_equities-tripped_iff,
}
use aicrypto_trader.Risk.Guards.{check, allowed}
use aicrypto_trader.Risk.Guards.Accepted.{IsWithinLimits, check-IsWithinLimits}
use aicrypto_trader.Tests.Samples.{cfg, fixed, btc}

-- A loss of 31 trips a breaker at 30, and the later profit does not release it.
abbrev swings : List Fixed
swings = fixed 4 ∷ negsuc 349_999 ∷ fixed 20 ∷ []

update_pnls-tripped_iff_example :
    ((update_pnls (new_daily_loss (fixed 1000) (literal 3 2)) swings).state.tripped ≡ true)
    ↔ Crosses (fixed 30) nought swings
update_pnls-tripped_iff_example = update_pnls-tripped_iff (fixed 1000) (literal 3 2) swings

update_equities-tripped_iff_example :
    ((update_equities (new_max_drawdown (literal 15 2)) (fixed 1000 ∷ fixed 840 ∷ [])).state.tripped
      ≡ true)
    ↔ FallsFar (literal 15 2) nought (fixed 1000 ∷ fixed 840 ∷ [])
update_equities-tripped_iff_example =
    update_equities-tripped_iff (literal 15 2) (fixed 1000 ∷ fixed 840 ∷ [])

check-IsWithinLimits_example :
    (check cfg 4 (fixed 990) (btc long) ≡ allowed) ↔ IsWithinLimits cfg 4 (fixed 990) (btc long)
check-IsWithinLimits_example = check-IsWithinLimits cfg 4 (fixed 990) (btc long)

allowed_runs : check cfg 4 (fixed 990) (btc long) ≡ allowed
unfolding check symbol_list is_listed
allowed_runs = refl

default_secrets_refused : assert_strong_secrets cfg ≡ some weak_secret_key
unfolding assert_strong_secrets
default_secrets_refused = refl
