-- ===== src/Agents/Llm/Json.antt =====
-- Values of JSON as Python's `json` reads them, for backend/src/cryptoswarm/agents/llm.py. A number is
-- kept as the text that Python shows for it. The keys of an object are those of a dict: a key stands once.
use aicrypto_trader.Base.{String, Option, none, some, Bool, str_eq, if◌then◌else◌}

mutual
  -- The keys of a dict with their values, in order.
  pub data DictItems : Type 0 where
    no_item : DictItems
    item : String → Value → DictItems → DictItems

  pub data ListItems : Type 0 where
    no_element : ListItems
    element : Value → ListItems → ListItems

  -- What `json.loads` returns.
  pub data Value : Type 0 where
    dict_of : DictItems → Value
    list_of : ListItems → Value
    text : String → Value
    number : String → Value
    boolean : Bool → Value
    null : Value

-- `fields.get(key)`
unfoldable pub get_field : String → DictItems → Option Value
get_field key no_item = none
get_field key (item k v rest) =
    let later = get_field key rest in if str_eq k key then some v else later

abbrev pub value_or : Value → Option Value → Value
value_or v none = v
value_or v (some w) = w

-- `key in fields`, put in front of other fields.
abbrev pub copied : String → Option Value → DictItems → DictItems
copied k none fs = fs
copied k (some v) fs = item k v fs
