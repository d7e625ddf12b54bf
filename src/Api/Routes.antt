-- ===== src/Api/Routes.antt =====
-- The routes of backend/src/cryptoswarm/api/routes that show the engine or send it a signal:
-- positions.py, circuit.py and signal.py, and the positions of grpc_server.py.
-- `dumps` is `json.dumps({"entry": entry})`; a fresh correlation id is an argument.
use aicrypto_trader.Base.{
  String, ◌≡◌, refl, ap, Option, none, some, Bool, true, List, [], ◌∷◌, ◌>>=◌, ◌∙◌, arith, str_eq,
  if◌then◌else◌, Bool-cases, inl, inr,
}
use text.Mathlib.Text.{starts_with}
use aicrypto_trader.Int.{ℤ}
use aicrypto_trader.Dict.{Dict, get}
use aicrypto_trader.Float.{Float, eq, nought}
use aicrypto_trader.Config.{Settings}
use aicrypto_trader.Bus.Messages.{Side, long, short, Signal}
use aicrypto_trader.PaperTrade.Account.{OpenPosition, unrealized_pnl, equity, open_position}
use aicrypto_trader.PaperTrade.Engine.{Engine, Step, done}
use aicrypto_trader.PaperTrade.Engine.Ledger.{opened, entries}
use aicrypto_trader.PaperTrade.Engine.Signals.{
  entry_price_of, embedded_entry, fallback_entry, process_signal,
}
use aicrypto_trader.PaperTrade.Engine.Entry.{IsExecutable, process_signal_executes}

pub record PositionView (F : Type 0) : Type 0 where
  pub symbol : String
  pub side : Side
  pub qty : F
  pub entry_price : F
  pub mark_price : F
  pub unrealized_pnl : F
  pub liq_price : F

pub record PositionsAnswer (F : Type 0) : Type 0 where
  pub balance : F
  pub equity : F
  pub positions : List (PositionView F)

pub record CircuitStatus (F : Type 0) : Type 0 where
  pub daily_loss_tripped : Bool
  pub cumulative_pnl : F
  pub threshold : F
  pub max_drawdown_tripped : Bool
  pub peak_equity : F

pub record SignalRequest (F : Type 0) : Type 0 where
  pub symbol : String
  pub side : String
  pub size_usd : F
  pub sl : F
  pub tp : F
  pub leverage : ℤ
  pub entry : F

-- The validation of `Signal.side`.
unfoldable pub side_of : String → Option Side
side_of text =
    if str_eq text "LONG" then some long else if str_eq text "SHORT" then some short else none

module _ {F : Type 0} ⦃fl : Float F⦄ where
  abbrev pub position_view : OpenPosition F → PositionView F
  position_view p = record {
    symbol = p.symbol;
    side = p.side;
    qty = p.qty;
    entry_price = p.entry_price;
    mark_price = p.mark_price;
    unrealized_pnl = unrealized_pnl p;
    liq_price = p.liq_price;
  }

  abbrev pub position_views : Dict (OpenPosition F) → List (PositionView F)
  position_views [] = []
  position_views ((s, p) ∷ d) = position_view p ∷ position_views d

  -- `list_positions`
  unfoldable pub list_positions : Engine F → PositionsAnswer F
  list_positions e = record {
    balance = e.account.balance;
    equity = equity e.account;
    positions = position_views e.account.open_positions;
  }

  -- `status` of the circuit breakers
  unfoldable pub circuit_status : Engine F → CircuitStatus F
  circuit_status e = record {
    daily_loss_tripped = e.daily_loss.state.tripped;
    cumulative_pnl = e.daily_loss.cumulative_pnl;
    threshold = e.daily_loss.threshold;
    max_drawdown_tripped = e.max_dd.state.tripped;
    peak_equity = e.max_dd.peak;
  }

  -- `if req.entry`
  abbrev pub reasoning_of : (F → String) → F → String
  reasoning_of dumps entry = if eq entry nought then "" else dumps entry

  -- `post_signal`: the signal that is published, or `none` for a `ValidationError`.
  unfoldable pub post_signal : (F → String) → String → SignalRequest F → Option (Signal F)
  post_signal dumps id req = do
    side ← side_of req.side
    some (record {
      correlation_id = id;
      symbol = req.symbol;
      side = side;
      size_usd = req.size_usd;
      sl = req.sl;
      tp = req.tp;
      leverage = req.leverage;
      reasoning = reasoning_of dumps req.entry;
    })

  -- The terms of a posted signal are those of the request.
  abbrev pub HasRequest : (F → String) → SignalRequest F → Signal F → Type 0
  HasRequest dumps req s =
      (s.symbol ≡ req.symbol)
      × (some s.side ≡ side_of req.side)
      × (s.sl ≡ req.sl)
      × (s.tp ≡ req.tp)
      × (s.reasoning ≡ reasoning_of dumps req.entry)

  post_signal-HasRequest :
      (dumps : F → String) (id : String) (req : SignalRequest F) (s : Signal F)
      → post_signal dumps id req ≡ some s
      → HasRequest dumps req s
  unfolding post_signal
  post_signal-HasRequest dumps id req s h = go (side_of req.side) refl
    where
      go : (o : Option Side) → side_of req.side ≡ o → HasRequest dumps req s
      go none e = absurd (cc (rw (e, post_signal) at h))
      go (some side) e = ground (arith, (rw (e, post_signal) at h))

  module _ (dumps : F → String) (json_entry : String → Option F) where
    -- The price at which the engine fills a posted signal.
    abbrev pub posted_price : SignalRequest F → Dict F → Signal F → F
    posted_price req marks s = if eq req.entry nought then fallback_entry marks s else req.entry

    embedded_posted :
        (entry : F)
        → starts_with (dumps entry) "{" ≡ true
        → json_entry (dumps entry) ≡ some entry
        → embedded_entry json_entry (reasoning_of dumps entry)
          ≡ (if eq entry nought then none else some entry)
    unfolding embedded_entry
    embedded_posted entry brace reads = elim (Bool-cases (eq entry nought)) [
      | inl zero ↦ rw zero refl
      | inr given ↦ rw given (ground (arith, brace, reads))
    ]

    price_of_reasoning :
        (req : SignalRequest F) (marks : Dict F) (s : Signal F)
        → starts_with (dumps req.entry) "{" ≡ true
        → json_entry (dumps req.entry) ≡ some req.entry
        → s.reasoning ≡ reasoning_of dumps req.entry
        → entry_price_of json_entry marks s ≡ posted_price req marks s
    unfolding entry_price_of
    price_of_reasoning req marks s brace reads h =
        let found = ap (embedded_entry json_entry) h ∙ embedded_posted req.entry brace reads in
        rw (found, entry_price_of)
          (elim (Bool-cases (eq req.entry nought)) [
            | inl zero ↦ rw zero refl
            | inr given ↦ rw given refl
          ])

    -- A position was opened with the terms of the request, at the posted price.
    abbrev pub IsFilled : SignalRequest F → Signal F → Engine F → Step F → Type 0
    IsFilled req s e r =
        (p : OpenPosition F) × (r.0 ≡ done)
        × (r.1.account ≡ open_position e.account p)
        × (entries r.1.published ≡ opened req.symbol ∷ entries e.published)
        × (p.symbol ≡ req.symbol)
        × (some p.side ≡ side_of req.side)
        × (p.sl ≡ req.sl)
        × (p.tp ≡ req.tp)
        × (p.entry_price ≡ posted_price req e.last_marks s)

    -- When the JSON object of the request's price begins with a brace and reads back as the price: a
    -- request for a signal of a symbol without an open position, which the engine can execute, opens
    -- exactly one position, of the request's symbol, side and levels, at the explicit price, whatever
    -- the mark prices are; if that price is zero, at the engine's fallback price.
    pub process_signal-post_signal :
        (cfg : Settings F) (now : F) (id : String) (req : SignalRequest F) (s : Signal F)
        (e : Engine F)
        → starts_with (dumps req.entry) "{" ≡ true
        → json_entry (dumps req.entry) ≡ some req.entry
        → post_signal dumps id req ≡ some s
        → get e.account.open_positions req.symbol ≡ none
        → IsExecutable cfg json_entry s e
        → IsFilled req s e (process_signal cfg json_entry now s e)
    process_signal-post_signal cfg now id req s e brace reads posted new x =
        let (symbol, side, sl, tp, reasoning) = post_signal-HasRequest dumps id req s posted in
        let at_symbol = ap (get e.account.open_positions) symbol ∙ new in
        let (p, ended, account, ledger, its_symbol, its_side, its_sl, its_tp, its_price) =
          process_signal_executes cfg json_entry now s e at_symbol x in
        (
          p,
          ended,
          account,
          ledger ∙ ap (λ (t : String). opened t ∷ entries e.published) symbol,
          its_symbol ∙ symbol,
          ap some its_side ∙ side,
          its_sl ∙ sl,
          its_tp ∙ tp,
          its_price ∙ price_of_reasoning req e.last_marks s brace reads reasoning,
        )
