-- ===== src/Database.antt =====
-- backend/src/cryptoswarm/storage/postgres.py: the trades, the learning tuples and the trips of the
-- breakers in PostgreSQL.
-- A table is the list of its rows, the latest insertion last, and a statement is a function on it. A
-- time is a number. Rows that a query leaves unordered keep the order of the table.
pub mod Orphans
pub mod Joined
pub mod Prompts
pub mod Followed
pub mod Records
use aicrypto_trader.Base.{
  ℕ, suc, String, Option, none, some, Bool, true, false, not, List, [], ◌∷◌, ◌++◌, str_eq, ltb,
  if◌then◌else◌,
}
use aicrypto_trader.Int.{ℤ}
use aicrypto_trader.Dict.{Dict, get}
use aicrypto_trader.Float.{Float, ◌⊕◌, ◌⊖◌, ◌⊗◌, nought}
use aicrypto_trader.Bus.Messages.{Side, long, short, side_eq, ExitReason, BreakerName}
use aicrypto_trader.Storage.{
  OpenRow, RlAction, CloseRow, Write, insert_trade_open, insert_rl_tuple, update_trade_close,
  insert_circuit_event,
}

-- `exit_reason` of a trade: what the engine reports, or the text that the start of a session writes.
pub data StoredReason : Type 0 where
  reported : ExitReason → StoredReason
  session_reset : StoredReason

-- A row of `trades`; `none` is NULL.
pub record Trade (F : Type 0) : Type 0 where
  pub correlation_id : String
  pub symbol : String
  pub side : Side
  pub qty : F
  pub entry_price : F
  pub leverage : ℤ
  pub sl : F
  pub tp : F
  pub fees : F
  pub opened_ts : ℕ
  pub exit_price : Option F
  pub exit_reason : Option StoredReason
  pub realized_pnl : Option F
  pub funding_paid : F
  pub closed_ts : Option ℕ

-- A value in a JSON object.
pub data Json (F : Type 0) : Type 0 where
  text : String → Json F
  real : F → Json F
  whole : ℤ → Json F

-- A row of `rl_tuples`, without the two states.
pub record RlTuple (F : Type 0) : Type 0 where
  pub action : Dict (Json F)
  pub reward : Option F

pub record CircuitEvent (F : Type 0) : Type 0 where
  pub breaker_name : BreakerName
  pub value : F
  pub threshold : F

pub record Tables (F : Type 0) : Type 0 where
  pub trades : List (Trade F)
  pub rl_tuples : List (RlTuple F)
  pub circuit_events : List (CircuitEvent F)

abbrev pub no_rows : {F : Type 0} → Tables F
no_rows = record { trades = []; rl_tuples = []; circuit_events = [] }

-- The text of a side.
abbrev pub side_text : Side → String
side_text long = "LONG"
side_text short = "SHORT"

module _ {F : Type 0} where
  abbrev pub is_open : Trade F → Bool
  is_open t = elim (t.closed_ts) [ none ↦ true | some ts ↦ false ]

  unfoldable pub has_trade : String → List (Trade F) → Bool
  has_trade id [] = false
  has_trade id (t ∷ ts) = if str_eq t.correlation_id id then true else has_trade id ts

  -- `json.dumps` of the action that storage/subscriber.py passes, read back.
  abbrev pub action_json : RlAction F → Dict (Json F)
  action_json a =
      ("symbol", text a.symbol)
      ∷ ("side", text (side_text a.side))
      ∷ ("qty", real a.qty)
      ∷ ("entry_price", real a.entry_price)
      ∷ ("leverage", whole a.leverage)
      ∷ ("sl", real a.sl)
      ∷ ("tp", real a.tp)
      ∷ []

  -- `action->>'correlation_id' = id`, where `shown` is the text of a number.
  unfoldable pub is_action_of : (Json F → String) → String → Dict (Json F) → Bool
  is_action_of shown id action = elim (get action "correlation_id") [
    | none ↦ false
    | some (text t) ↦ str_eq t id
    | some (real x) ↦ str_eq (shown (real x)) id
    | some (whole n) ↦ str_eq (shown (whole n)) id
  ]

  -- `update_rl_tuple_reward`
  unfoldable pub update_rl_tuple_reward :
      (Json F → String) → String → F → List (RlTuple F) → List (RlTuple F)
  update_rl_tuple_reward shown id reward [] = []
  update_rl_tuple_reward shown id reward (r ∷ rs) =
      let rest = update_rl_tuple_reward shown id reward rs in
      elim (r.reward) [
        | some old ↦ r ∷ rest
        | none ↦
            (if is_action_of shown id r.action then record r { reward = some reward } else r) ∷ rest
      ]

module _ {F : Type 0} ⦃fl : Float F⦄ where
  abbrev pub trade_of : ℕ → OpenRow F → Trade F
  trade_of ts r = record {
    correlation_id = r.correlation_id;
    symbol = r.symbol;
    side = r.side;
    qty = r.qty;
    entry_price = r.entry_price;
    leverage = r.leverage;
    sl = r.sl;
    tp = r.tp;
    fees = r.fees;
    opened_ts = ts;
    exit_price = none;
    exit_reason = none;
    realized_pnl = none;
    funding_paid = nought;
    closed_ts = none;
  }

  -- `insert_trade_open`: ON CONFLICT (correlation_id) DO NOTHING
  unfoldable pub insert_open : ℕ → OpenRow F → List (Trade F) → List (Trade F)
  insert_open ts r trades =
      if has_trade r.correlation_id trades then trades else trades ++ (trade_of ts r ∷ [])

  abbrev pub closed_trade : ℕ → CloseRow F → Trade F → Trade F
  closed_trade ts r t = record t {
    exit_price = some r.exit_price;
    exit_reason = some (reported r.exit_reason);
    realized_pnl = some r.realized_pnl;
    funding_paid = r.funding_paid;
    fees = t.fees ⊕ r.exit_fees;
    closed_ts = some ts;
  }

  -- `update_trade_close`
  unfoldable pub update_close : ℕ → CloseRow F → List (Trade F) → List (Trade F)
  update_close ts r [] = []
  update_close ts r (t ∷ trades) =
      (if str_eq t.correlation_id r.correlation_id then closed_trade ts r t else t)
      ∷ update_close ts r trades

  -- A write of storage/subscriber.py, whose message has the time stamp `ts`.
  unfoldable pub perform : ℕ → Write F → Tables F → Tables F
  perform ts (insert_trade_open r) d = record d { trades = insert_open ts r d.trades }
  perform ts (insert_rl_tuple a) d = record d {
    rl_tuples = d.rl_tuples ++ (record { action = action_json a; reward = none } ∷ []);
  }
  perform ts (update_trade_close r) d = record d { trades = update_close ts r d.trades }
  perform ts (insert_circuit_event b x y) d = record d {
    circuit_events =
        d.circuit_events ++ (record { breaker_name = b; value = x; threshold = y } ∷ []);
  }

  -- `ORDER BY opened_ts` of `get_open_trades`
  abbrev pub by_opened : Trade F → List (Trade F) → List (Trade F)
  by_opened t [] = t ∷ []
  by_opened t (u ∷ us) = if ltb u.opened_ts t.opened_ts then u ∷ by_opened t us else t ∷ u ∷ us

  unfoldable pub get_open_trades : List (Trade F) → List (Trade F)
  get_open_trades [] = []
  get_open_trades (t ∷ ts) =
      let rest = get_open_trades ts in if is_open t then by_opened t rest else rest
