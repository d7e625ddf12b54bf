-- ===== src/Feed/Frames.antt =====
-- The frames of the exchange as JSON, and the market messages of
-- backend/src/cryptoswarm/bus/messages.py. A number of a frame is its text; what Python makes of it
-- is a parameter. A time is a natural number, counted from the first time that Python has.
use aicrypto_trader.Base.{
  ℕ, String, Option, none, some, Bool, true, false, not, str_eq, contains, if◌then◌else◌,
}
use aicrypto_trader.Bus.Messages.{MarkPrice}

mutual
  -- A value of a frame.
  pub data Value : Type 0 where
    null : Value
    text : String → Value
    number : String → Value
    flag : Bool → Value
    array : Values → Value
    object : Fields → Value

  pub data Values : Type 0 where
    no_value : Values
    value : Value → Values → Values

  pub data Fields : Type 0 where
    empty : Fields
    field : String → Value → Fields → Fields

-- What Python makes of numbers: `float` on a text and on a JSON number, whether a JSON number is zero,
-- and `datetime.fromtimestamp(number / 1000)`. `none` is an exception: a text that is no number, a number
-- that is too large for a float, a year outside of Python's range.
pub record Numbers (F : Type 0) : Type 0 where
  pub parse : String → Option F
  pub amount : String → Option F
  pub is_zero : String → Bool
  pub stamp : String → Option ℕ

-- `d.get(key)`
unfoldable pub find : String → Fields → Option Value
find key empty = none
find key (field k v fs) = if str_eq k key then some v else find key fs

-- `d.get(key, default)`
abbrev pub find_or : String → Fields → Value → Value
find_or key fs default = elim (find key fs) [ none ↦ default | some v ↦ v ]

-- `v.get(...)` needs an object; `none` is an exception.
abbrev pub fields_of : Value → Option Fields
fields_of (object fs) = some fs
fields_of null = none
fields_of (text t) = none
fields_of (number n) = none
fields_of (flag b) = none
fields_of (array vs) = none

-- A field of a message that is a string.
abbrev pub text_of : Value → Option String
text_of (text t) = some t
text_of null = none
text_of (number n) = none
text_of (flag b) = none
text_of (array vs) = none
text_of (object fs) = none

-- A Boolean as a number.
abbrev digit : Bool → String
digit true = "1"
digit false = "0"

-- `datetime.fromtimestamp(v / 1000)`: a Boolean divides as the number 1 or 0.
abbrev pub time_of : {F : Type 0} → Numbers F → Value → Option ℕ
time_of py (number n) = py.stamp n
time_of py (flag b) = py.stamp (digit b)
time_of py null = none
time_of py (text t) = none
time_of py (array vs) = none
time_of py (object fs) = none

-- `bool(v)`
abbrev pub truth : {F : Type 0} → Numbers F → Value → Bool
truth py null = false
truth py (text t) = not (str_eq t "")
truth py (number n) = not (py.is_zero n)
truth py (flag b) = b
truth py (array no_value) = false
truth py (array (value v vs)) = true
truth py (object empty) = false
truth py (object (field k v fs)) = true

-- `float(v)`
abbrev pub float_of : {F : Type 0} → Numbers F → Value → Option F
float_of py (text t) = py.parse t
float_of py (number n) = py.amount n
float_of py (flag b) = py.amount (digit b)
float_of py null = none
float_of py (array vs) = none
float_of py (object fs) = none

-- `part in v`: a part of a text, an element of an array, a key of an object.
unfoldable pub has_value : String → Values → Bool
has_value part no_value = false
has_value part (value v vs) =
    let rest = has_value part vs in
    elim (text_of v) [ none ↦ rest | some t ↦ if str_eq t part then true else rest ]

abbrev has_field : String → Fields → Bool
has_field key fs = elim (find key fs) [ none ↦ false | some v ↦ true ]

abbrev pub has_part : Value → String → Bool
has_part (text t) part = contains t part
has_part (array vs) part = has_value part vs
has_part (object fs) part = has_field part fs
has_part null part = false
has_part (number n) part = false
has_part (flag b) part = false

-- `part in v` raises on any other value.
abbrev pub is_container : Value → Bool
is_container (text t) = true
is_container (array vs) = true
is_container (object fs) = true
is_container null = false
is_container (number n) = false
is_container (flag b) = false

pub record MarketTick (F : Type 0) : Type 0 where
  pub symbol : String
  pub interval : String
  pub open_price : F
  pub high : F
  pub low : F
  pub close : F
  pub volume : F
  pub is_closed : Bool
  pub ts : ℕ

pub record FundingUpdate (F : Type 0) : Type 0 where
  pub symbol : String
  pub funding_time : ℕ
  pub rate : F

-- Literal["BUY", "SELL"]
pub data OrderSide : Type 0 where
  buy sell : OrderSide

pub record LiquidationEvent (F : Type 0) : Type 0 where
  pub symbol : String
  pub side : OrderSide
  pub price : F
  pub qty : F
  pub ts : ℕ

pub record BookTicker (F : Type 0) : Type 0 where
  pub symbol : String
  pub best_bid : F
  pub best_ask : F
  pub ts : ℕ

-- What the feed publishes. A mark price has its time beside it.
pub data MarketMessage (F : Type 0) : Type 0 where
  tick : MarketTick F → MarketMessage F
  mark : ℕ → MarkPrice F → MarketMessage F
  funding : FundingUpdate F → MarketMessage F
  liquidation : LiquidationEvent F → MarketMessage F
  book : BookTicker F → MarketMessage F
