-- ===== src/PaperTrade/Math.antt =====
-- backend/src/cryptoswarm/papertrade/math.py: the formulas of a position.
use aicrypto_trader.Base.{if◌then◌else◌}
use aicrypto_trader.Int.{ℤ, is_zero}
use aicrypto_trader.Float.{Float, ◌⊕◌, ◌⊖◌, ◌⊗◌, ◌⊘◌, le, nought, of_int, literal}
use aicrypto_trader.Bus.Messages.{Side, long, short}
use aicrypto_trader.PaperTrade.Result.{Result, ok, err, value_error, zero_division}

module _ {F : Type 0} ⦃fl : Float F⦄ where
  unfoldable pub calc_qty : F → F → Result F
  calc_qty size_usd entry_price =
      if le entry_price nought then err value_error else ok (size_usd ⊘ entry_price)

  unfoldable pub calc_isolated_margin : F → ℤ → Result F
  calc_isolated_margin size_usd leverage =
      if is_zero leverage then err zero_division else ok (size_usd ⊘ of_int leverage)

  abbrev one : F
  one = literal 1 0

  abbrev liq_factor : Side → F → F → F
  liq_factor long inverse mmr = one ⊖ inverse ⊕ mmr
  liq_factor short inverse mmr = one ⊕ inverse ⊖ mmr

  unfoldable pub calc_liq_price : F → Side → ℤ → F → Result F
  calc_liq_price entry_price side leverage mmr =
      if is_zero leverage
      then err zero_division
      else ok (entry_price ⊗ liq_factor side (one ⊘ of_int leverage) mmr)

  unfoldable pub calc_unrealized_pnl : F → F → F → Side → F
  calc_unrealized_pnl qty entry_price mark_price long = qty ⊗ (mark_price ⊖ entry_price)
  calc_unrealized_pnl qty entry_price mark_price short = qty ⊗ (entry_price ⊖ mark_price)

  unfoldable pub calc_realized_pnl : F → F → F → Side → F
  calc_realized_pnl qty entry_price exit_price long = qty ⊗ (exit_price ⊖ entry_price)
  calc_realized_pnl qty entry_price exit_price short = qty ⊗ (entry_price ⊖ exit_price)

  unfoldable pub calc_entry_fee : F → F → F
  calc_entry_fee size_usd taker_rate = size_usd ⊗ taker_rate

  unfoldable pub calc_exit_fee : F → F → F → F
  calc_exit_fee qty exit_price taker_rate = qty ⊗ exit_price ⊗ taker_rate

  unfoldable pub calc_funding : F → F → F → Side → F
  calc_funding qty mark_price rate long = fl.neg (qty ⊗ mark_price ⊗ rate)
  calc_funding qty mark_price rate short = qty ⊗ mark_price ⊗ rate
