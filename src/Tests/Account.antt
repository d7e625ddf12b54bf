-- ===== src/Tests/Account.antt =====
-- The account on sample positions.
use aicrypto_trader.Base.{String, ◌≡◌, refl, []}
use aicrypto_trader.Dict.{get, put, pop}
use aicrypto_trader.Float.{literal, nought, ◌⊕◌}
use aicrypto_trader.Float.Fixed.{Fixed, fixed_float, Fixed-IsExact}
use aicrypto_trader.PaperTrade.Math.{calc_realized_pnl}
use aicrypto_trader.PaperTrade.Account.{Account, new_account, open_position, close, apply_funding}
use aicrypto_trader.PaperTrade.Account.RoundTrip.{open_position-close, funding_counted_twice}
use aicrypto_trader.Tests.Samples.{fixed, half_btc}

abbrev start : Account Fixed
start = new_account (fixed 1000)

-- Closed at 110, with an exit fee of 0.022.
abbrev ended : Account Fixed
ended = record { balance = literal 1_004_958 3; open_positions = [] }

open_position-close_example :
    (ended.balance ≡ start.balance ⊕ literal 4958 3)
    × ((j : String) → get ended.open_positions j ≡ get start.open_positions j)
unfolding open_position close get put pop calc_realized_pnl
open_position-close_example =
    open_position-close Fixed-IsExact start half_btc (fixed 110) (literal 22 3) (literal 4958 3)
      ended refl refl refl

-- The same with a funding payment of 1 in between: the balance ends 2 higher.
abbrev ended_funded : Account Fixed
ended_funded = record { balance = literal 1_006_958 3; open_positions = [] }

funding_counted_twice_example :
    ended_funded.balance ≡ start.balance ⊕ literal 4958 3 ⊕ nought ⊕ fixed 1 ⊕ fixed 1
unfolding open_position apply_funding close get put pop calc_realized_pnl
funding_counted_twice_example =
    funding_counted_twice Fixed-IsExact start half_btc (fixed 1) (fixed 110) (literal 22 3)
      (literal 4958 3) ended_funded refl
