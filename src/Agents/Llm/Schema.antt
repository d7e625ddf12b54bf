-- ===== src/Agents/Llm/Schema.antt =====
-- `_to_gemini_schema` of backend/src/cryptoswarm/agents/llm.py. `none` is an exception: an
-- AttributeError at a value that is no dict, or a TypeError at a type that cannot be a key.
use aicrypto_trader.Base.{
  String, ◌≡◌, refl, subst, inl, inr, Option, none, some, arith, str_eq, if◌then◌else◌, ◌>>=◌,
  Bool-cases,
}
use aicrypto_trader.Agents.Llm.Json.{
  Value, DictItems, null, boolean, number, text, list_of, dict_of, no_item, item, get_field,
  value_or, copied,
}

-- `_GEMINI_TYPE.get(name, "STRING")`
abbrev pub gemini_name : String → String
gemini_name name =
    if str_eq name "string"
    then "STRING"
    else if str_eq name "number"
    then "NUMBER"
    else if str_eq name "integer"
    then "INTEGER"
    else if str_eq name "boolean"
    then "BOOLEAN"
    else if str_eq name "array"
    then "ARRAY"
    else if str_eq name "object"
    then "OBJECT"
    else "STRING"

-- A list or a dict cannot be looked up.
unfoldable pub gemini_type : Value → Option String
gemini_type (text name) = some (gemini_name name)
gemini_type (list_of xs) = none
gemini_type (dict_of fs) = none
gemini_type null = some "STRING"
gemini_type (boolean b) = some "STRING"
gemini_type (number n) = some "STRING"

-- The entry of a property.
unfoldable pub entry_of : Value → Option DictItems
entry_of (dict_of prop) = do
  name ← gemini_type (value_or (text "string") (get_field "type" prop))
  some (
      item "type" (text name) (
        copied "description" (get_field "description" prop)
          (copied "enum" (get_field "enum" prop) no_item)))
entry_of null = none
entry_of (boolean b) = none
entry_of (number n) = none
entry_of (text t) = none
entry_of (list_of xs) = none

unfoldable pub convert_props : DictItems → Option DictItems
convert_props no_item = some no_item
convert_props (item name prop fs) = do
  entry ← entry_of prop
  rest ← convert_props fs
  some (item name (dict_of entry) rest)

-- `.items()` of a value
abbrev pub items_of : Value → Option DictItems
items_of (dict_of fs) = some fs
items_of null = none
items_of (boolean b) = none
items_of (number n) = none
items_of (text t) = none
items_of (list_of xs) = none

-- `_to_gemini_schema`
unfoldable pub to_gemini_schema : DictItems → Option DictItems
to_gemini_schema schema = do
  items ← items_of (value_or (dict_of no_item) (get_field "properties" schema))
  props ← convert_props items
  some (
      item "type" (text "OBJECT") (
        item "properties" (dict_of props)
          (copied "required" (get_field "required" schema) no_item)))

-- What becomes of a property, if there is one.
abbrev pub converted : Option Value → Option Value
converted none = none
converted (some prop) = entry_of prop >>= (λ entry. some (dict_of entry))

convert_props-get_field :
    (fs props : DictItems) (name : String)
    → convert_props fs ≡ some props
    → get_field name props ≡ converted (get_field name fs)
unfolding convert_props get_field
convert_props-get_field no_item props name h = ground (arith, h)
convert_props-get_field (item k prop fs) props name h =
    go (entry_of prop) refl (convert_props fs) refl (λ rest. convert_props-get_field fs rest name)
  where
    go :
        (e : Option DictItems)
        → entry_of prop ≡ e
        → (r : Option DictItems) → convert_props fs ≡ r
        → ((rest : DictItems)
            → convert_props fs ≡ some rest
            → get_field name rest ≡ converted (get_field name fs))
        → get_field name props ≡ converted (get_field name (item k prop fs))
    go none e r d ih = absurd (cc (rw (e, convert_props) at h))
    go (some entry) e none d ih = absurd (cc (rw (e, d, convert_props) at h))
    go (some entry) e (some rest) d ih =
        let same : item k (dict_of entry) rest ≡ props = cc (rw (e, d, convert_props) at h) in
        subst (λ ps. get_field name ps ≡ converted (get_field name (item k prop fs))) same
          (elim (Bool-cases (str_eq k name)) [
            | inl own ↦ rw (own, e) refl
            | inr other ↦ rw other (ih rest d)
          ])

-- A property that has a dict for its schema and a text for its type.
abbrev pub IsTyped : Value → Type 0
IsTyped v =
    (prop : DictItems) × (name : String) × (v ≡ dict_of prop)
    × (get_field "type" prop ≡ some (text name))

abbrev pub AreTyped : DictItems → Type 0
AreTyped no_item = Unit
AreTyped (item k v fs) = IsTyped v × AreTyped fs

convert_props_succeeds :
    (fs : DictItems) → AreTyped fs → (props : DictItems) × (convert_props fs ≡ some props)
unfolding convert_props entry_of gemini_type
convert_props_succeeds no_item t = (no_item, refl)
convert_props_succeeds (item k v fs) ((prop, name, is, has), ts) =
    let (rest, done) = convert_props_succeeds fs ts in
    (
      item k
          (dict_of (
            item "type" (text (gemini_name name)) (
              copied "description" (get_field "description" prop)
                (copied "enum" (get_field "enum" prop) no_item))))
          rest,
      rw (is, has, done, convert_props, entry_of, gemini_type) refl,
    )

-- A schema whose properties all are dicts with a type is converted without an exception: into an
-- object whose property of any name is the converted property of that name, where one of the six types
-- of JSON Schema becomes Gemini's, any other type a string, and description and enumeration are kept;
-- with the same list of required names, if there is one.
pub to_gemini_schema-get_field :
    (schema fs : DictItems)
    → get_field "properties" schema ≡ some (dict_of fs)
    → AreTyped fs
    → (props : DictItems) × (to_gemini_schema schema
        ≡ some (
            item "type" (text "OBJECT") (
              item "properties"
                (dict_of props)
                (copied "required" (get_field "required" schema) no_item))))
      × ((name : String) → get_field name props ≡ converted (get_field name fs))
unfolding to_gemini_schema
to_gemini_schema-get_field schema fs has typed =
    let (props, done) = convert_props_succeeds fs typed in
    (
      props,
      rw (has, done, to_gemini_schema) refl,
      λ name. convert_props-get_field fs props name done,
    )
