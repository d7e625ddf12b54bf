-- ===== src/Agents/Quant.antt =====
-- backend/src/cryptoswarm/agents/quant.py and indicators.py: the quant agent.
-- `ta` stands for the library that computes the indicators of the last bar, `fetch_klines` for the
-- database and `ask` for the language model; `none` is an exception of theirs, which `run` logs.
use aicrypto_trader.Base.{
  ℕ, String, Option, none, some, List, [], ◌∷◌, ltb, length, if◌then◌else◌, ◌>>=◌,
}
use aicrypto_trader.Dict.{Dict}
use aicrypto_trader.Float.{Float, nought}
use aicrypto_trader.Agents.Messages.{AnalyzeRequest, Regime, QuantResult}

pub record Kline (F : Type 0) : Type 0 where
  pub open_price : F
  pub high : F
  pub low : F
  pub close : F
  pub volume : F

-- What `ta` computes.
pub record Indicators (F : Type 0) : Type 0 where
  pub rsi : F
  pub macd_hist : F
  pub bb_pband : F
  pub ema20 : F
  pub ema50 : F
  pub atr : F

-- The answer of the model, by its schema.
pub record QuantAnswer (F : Type 0) : Type 0 where
  pub regime : Regime
  pub signal_strength : F
  pub confidence : F
  pub reasoning : String

pub record QuantOutside (F : Type 0) : Type 0 where
  pub fetch_klines : String → ℕ → Option (List (Kline F))
  pub ta : List (Kline F) → Indicators F
  pub ask : AnalyzeRequest → Dict F → Option (QuantAnswer F)

module _ {F : Type 0} ⦃fl : Float F⦄ where
  -- `close.iloc[-1]`
  abbrev last_close : List (Kline F) → F
  last_close [] = nought
  last_close (k ∷ []) = k.close
  last_close (k ∷ l ∷ ks) = last_close (l ∷ ks)

  -- The numeric entries; `none` is the `ValueError` on fewer than 60 bars.
  unfoldable pub compute_indicators :
      (List (Kline F) → Indicators F) → List (Kline F) → Option (Dict F)
  compute_indicators ta ohlcv =
      let i = ta ohlcv in
      if ltb (length ohlcv) 60
      then none
      else some (
          ("rsi", fl.round i.rsi 2)
          ∷ ("macd_hist", fl.round i.macd_hist 6)
          ∷ ("bb_pband", fl.round i.bb_pband 4)
          ∷ ("ema20", fl.round i.ema20 4)
          ∷ ("ema50", fl.round i.ema50 4)
          ∷ ("atr", fl.round i.atr 4)
          ∷ ("close", fl.round (last_close ohlcv) 4)
          ∷ [])

  abbrev quant_answer : AnalyzeRequest → Dict F → QuantAnswer F → QuantResult F
  quant_answer req indicators raw = record {
    correlation_id = req.correlation_id;
    symbol = req.symbol;
    regime = raw.regime;
    signal_strength = raw.signal_strength;
    confidence = raw.confidence;
    reasoning = raw.reasoning;
    indicators = indicators;
  }

  unfoldable pub quant_result :
      QuantOutside F → AnalyzeRequest → List (Kline F) → Option (QuantResult F)
  quant_result out req rows = do
    indicators ← compute_indicators out.ta rows
    raw ← out.ask req indicators
    some (quant_answer req indicators raw)

  -- `_handle` on the rows: the result that is published, if any.
  unfoldable pub quant_rows :
      QuantOutside F → AnalyzeRequest → List (Kline F) → Option (QuantResult F)
  quant_rows out req rows = if ltb (length rows) 60 then none else quant_result out req rows

  unfoldable pub handle_quant : QuantOutside F → AnalyzeRequest → Option (QuantResult F)
  handle_quant out req = do
    rows ← out.fetch_klines req.symbol req.lookback_bars
    quant_rows out req rows
