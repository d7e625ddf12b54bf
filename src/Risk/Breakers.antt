-- ===== src/Risk/Breakers.antt =====
-- backend/src/cryptoswarm/risk/breakers.py: the circuit breakers.
-- `tripped_at`, a time stamp that the program writes and never reads, is left out.
pub mod Crossing
use aicrypto_trader.Base.{Bool, true, false, if◌then◌else◌}
use aicrypto_trader.Float.{Float, ◌⊕◌, ◌⊖◌, ◌⊗◌, ◌⊘◌, le, lt, nought}
use aicrypto_trader.Bus.Messages.{BreakerName, daily_loss, max_drawdown}

pub record CircuitBreakerState (F : Type 0) : Type 0 where
  pub name : BreakerName
  pub tripped : Bool
  pub last_value : F

pub record DailyLossBreaker (F : Type 0) : Type 0 where
  pub starting_balance : F
  pub threshold : F
  pub cumulative_pnl : F
  pub state : CircuitBreakerState F

pub record MaxDrawdownBreaker (F : Type 0) : Type 0 where
  pub threshold_pct : F
  pub peak : F
  pub state : CircuitBreakerState F

module _ {F : Type 0} ⦃fl : Float F⦄ where
  abbrev pub armed : BreakerName → CircuitBreakerState F
  armed n = record { name = n; tripped = false; last_value = nought }

  unfoldable pub trip : CircuitBreakerState F → F → CircuitBreakerState F
  trip s value = record s { tripped = true; last_value = value }

  unfoldable pub reset_state : CircuitBreakerState F → CircuitBreakerState F
  reset_state s = record s { tripped = false; last_value = nought }

  -- `DailyLossBreaker.__init__`
  abbrev pub new_daily_loss : F → F → DailyLossBreaker F
  new_daily_loss balance pct = record {
    starting_balance = balance;
    threshold = balance ⊗ pct;
    cumulative_pnl = nought;
    state = armed daily_loss;
  }

  unfoldable pub update_pnl : DailyLossBreaker F → F → DailyLossBreaker F
  unfolding trip
  update_pnl b delta =
      let total = b.cumulative_pnl ⊕ delta in
      if le total (fl.neg (fl.abs b.threshold))
      then record b { cumulative_pnl = total; state = trip b.state total }
      else record b { cumulative_pnl = total }

  unfoldable pub reset_daily_loss : DailyLossBreaker F → DailyLossBreaker F
  unfolding reset_state
  reset_daily_loss b = record b { cumulative_pnl = nought; state = reset_state b.state }

  -- `MaxDrawdownBreaker.__init__`
  abbrev pub new_max_drawdown : F → MaxDrawdownBreaker F
  new_max_drawdown pct = record { threshold_pct = pct; peak = nought; state = armed max_drawdown }

  abbrev pub raise_peak : F → F → F
  raise_peak peak equity = if lt peak equity then equity else peak

  unfoldable pub update_equity : MaxDrawdownBreaker F → F → MaxDrawdownBreaker F
  unfolding trip
  update_equity b equity =
      let peak = raise_peak b.peak equity in
      let drawdown = (peak ⊖ equity) ⊘ peak in
      if lt nought peak
      then if le b.threshold_pct drawdown
        then record b { peak = peak; state = trip b.state drawdown }
        else record b { peak = peak }
      else record b { peak = peak }

  unfoldable pub reset_max_drawdown : MaxDrawdownBreaker F → MaxDrawdownBreaker F
  unfolding reset_state
  reset_max_drawdown b = record b { peak = nought; state = reset_state b.state }
