-- ===== src/Scraper/Search.antt =====
-- backend/src/cryptoswarm/scraper/searcher.py: the articles in the answer of a search. The service is
-- a parameter: the content of its answer to a symbol, where `none` is an exception. `loads` is
-- `json.loads`, whose exceptions are `none`, and `show` is Python's `str` of a value.
use Prim.Native.Char.{code}
use Prim.Native.String.{String}
use package.text.Mathlib.Text.{starts_with}
use aicrypto_trader.Base.{
  ℕ, zero, suc, Option, none, some, Bool, true, false, not, ◌&&◌, List, [], ◌∷◌, cat, str_eq, ◌==◌,
  if◌then◌else◌, ◌>>=◌,
}
use aicrypto_trader.Config.Symbols.{strip}
use aicrypto_trader.Agents.Llm.Json.{
  Value, ListItems, DictItems, null, boolean, number, text, list_of, dict_of, no_element, element,
  no_item, item, get_field,
}
use aicrypto_trader.Agents.Llm.Asks.{is_zero_text}

-- A found article.
pub record Found : Type 0 where
  pub title : String
  pub body : String
  pub url : String

-- re.sub(r"```(?:json)?", "", text), where the first argument counts the characters to skip.
unfoldable pub remove_fences : ℕ → String → String
remove_fences skip String.[] = String.[]
remove_fences (suc k) (String.◌∷◌ c s) = remove_fences k s
remove_fences zero (String.◌∷◌ c s) =
    let past_json = remove_fences 6 s in
    let past_fence = remove_fences 2 s in
    let kept = remove_fences 0 s in
    if starts_with (String.◌∷◌ c s) "```json"
    then past_json
    else if starts_with (String.◌∷◌ c s) "```"
    then past_fence
    else String.◌∷◌ c kept

-- `rstrip("```")`: the backticks at the end
unfoldable pub rstrip_ticks : String → String
rstrip_ticks String.[] = String.[]
rstrip_ticks (String.◌∷◌ c s) =
    let rest = rstrip_ticks s in
    if str_eq rest "" && code c == b'`' then String.[] else String.◌∷◌ c rest

-- `text[text.find("["):]`, if there is a bracket
unfoldable pub from_bracket : String → Option String
from_bracket String.[] = none
from_bracket (String.◌∷◌ c s) =
    let rest = from_bracket s in if code c == b'[' then some (String.◌∷◌ c s) else rest

-- A text up to its last closing bracket, if there is one.
unfoldable pub to_bracket : String → Option String
to_bracket String.[] = none
to_bracket (String.◌∷◌ c s) = elim (to_bracket s) [
  | some t ↦ some (String.◌∷◌ c t)
  | none ↦ if code c == b']' then some (String.◌∷◌ c String.[]) else none
]

abbrev pub text_or_empty : Option String → String
text_or_empty none = ""
text_or_empty (some t) = t

-- The text of the array, or `none` if one of the brackets is missing; it is empty if the last closing
-- bracket stands before the first opening one.
unfoldable pub array_text : String → Option String
array_text t = do
  opened ← from_bracket t
  closed ← to_bracket t
  some (text_or_empty (to_bracket opened))

-- The truth of a value.
abbrev pub truthy : Value → Bool
truthy null = false
truthy (boolean b) = b
truthy (number n) = not (is_zero_text n)
truthy (text t) = not (str_eq t "")
truthy (list_of no_element) = false
truthy (list_of (element v vs)) = true
truthy (dict_of no_item) = false
truthy (dict_of (item k v fs)) = true

abbrev pub is_present : Option Value → Bool
is_present none = false
is_present (some v) = truthy v

module _ (loads : String → Option Value) (show : Value → String) (model : String) where
  -- `str(a.get(key, default))`
  abbrev pub shown_or : String → Option Value → String
  shown_or default none = default
  shown_or default (some v) = show v

  abbrev pub found_of : DictItems → Found
  found_of a = record {
    title = shown_or "" (get_field "title" a);
    body = shown_or "" (get_field "body" a);
    url = shown_or (cat "openrouter-search-" model) (get_field "url" a);
  }

  -- The dicts of an array that have a title.
  unfoldable pub articles_of : ListItems → List Found
  articles_of no_element = []
  articles_of (element (dict_of a) vs) =
      let rest = articles_of vs in
      if is_present (get_field "title" a) then found_of a ∷ rest else rest
  articles_of (element null vs) = articles_of vs
  articles_of (element (boolean b) vs) = articles_of vs
  articles_of (element (number n) vs) = articles_of vs
  articles_of (element (text t) vs) = articles_of vs
  articles_of (element (list_of xs) vs) = articles_of vs

  -- What the loop makes of a value: the keys of a dict and the characters of a text are no dicts, and
  -- other values cannot be iterated, which `search_symbol` catches.
  abbrev pub articles_in : Value → List Found
  articles_in (list_of vs) = articles_of vs
  articles_in null = []
  articles_in (boolean b) = []
  articles_in (number n) = []
  articles_in (text t) = []
  articles_in (dict_of fs) = []

  abbrev pub cleaned : String → String
  cleaned content = strip (rstrip_ticks (strip (remove_fences 0 (strip content))))

  abbrev pub parsed : Option String → List Found
  parsed none = []
  parsed (some t) = elim (loads t) [ none ↦ [] | some v ↦ articles_in v ]

  -- `search_symbol`
  unfoldable pub search_symbol : Option String → List Found
  search_symbol none = []
  search_symbol (some content) = parsed (array_text (cleaned content))
