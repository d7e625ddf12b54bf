-- ===== src/Agents/Llm/Asks.antt =====
-- The `ask` of the four providers of backend/src/cryptoswarm/agents/llm.py: what is sent, and what is
-- made of the answer. The provider's library is a function from the request to the answer; `none` of
-- an `ask` is an exception. `loads` is `json.loads`, `none` of which is an exception.
pub mod Named
use aicrypto_trader.Base.{
  ℕ, String, ◌≡◌, ◌≢◌, ◌⊎◌, refl, inl, inr, Option, none, some, Bool, true, false, ◌||◌, List, [],
  ◌∷◌, arith, str_eq, eq_iff, str_eq_refl, if◌then◌else◌, ◌>>=◌, cat, contains, Option-cases,
  Bool-cases,
}
use aicrypto_trader.Agents.Llm.{Block, tool_use, other_block, tool_input}
use aicrypto_trader.Agents.Llm.Json.{
  Value, ListItems, DictItems, null, boolean, number, text, list_of, dict_of, no_element, element,
  no_item, item, get_field, value_or,
}
use aicrypto_trader.Agents.Llm.Schema.{to_gemini_schema}

-- A tool as it is offered to a model.
pub record Tool : Type 0 where
  pub name : String
  pub description : String
  pub schema : DictItems

-- What the providers are asked: the one tool that may be called, and the texts. The two optional
-- fields are each sent by one provider alone.
pub record Request : Type 0 where
  pub model : String
  pub system : String
  pub prompt : String
  pub tool : Tool
  pub forced : Option String
  pub max_tokens : Option ℕ
  pub think : Option Bool

pub record Question : Type 0 where
  pub system : String
  pub prompt : String
  pub tool_name : String
  pub tool_schema : DictItems

abbrev pub offered : Question → DictItems → Tool
offered q schema = record {
  name = q.tool_name;
  description = cat "Return the " (cat q.tool_name " structured result.");
  schema = schema;
}

abbrev pub request_to : String → Question → Request
request_to model q = record {
  model = model;
  system = q.system;
  prompt = q.prompt;
  tool = offered q q.tool_schema;
  forced = some q.tool_name;
  max_tokens = none;
  think = none;
}

-- A call in an answer of OpenAI: the name and the text of the arguments.
pub record FunctionCall : Type 0 where
  pub name : String
  pub arguments : String

-- `AnthropicProvider.ask`
unfoldable pub anthropic_ask : (Request → List (Block Value)) → String → Question → Option Value
anthropic_ask server model q =
    tool_input q.tool_name (server (record (request_to model q) { max_tokens = some 1_024 }))

-- The choices of an answer, each with its calls; NULL calls are the empty list here, as both are
-- falsy.
abbrev pub first_call : List FunctionCall → String → Option FunctionCall
first_call [] name = none
first_call (c ∷ cs) name = if str_eq c.name name then some c else none

-- `OpenAIProvider.ask`
unfoldable pub openai_ask :
    (String → Option Value)
    → (Request → List (List FunctionCall))
    → String
    → Question
    → Option Value
openai_ask loads server model q = elim (server (request_to model q)) [
  | [] ↦ none
  | ◌∷◌ calls choices ↦ first_call calls q.tool_name >>= (λ c. loads c.arguments)
]

-- `"qwen3" in model.lower()`, where `lower` is Python's `str.lower`
abbrev pub is_qwen3 : (String → String) → String → Bool
is_qwen3 lower model = contains (lower model) "qwen3"

abbrev pub ollama_request : (String → String) → String → Question → Request
ollama_request lower model q = record (request_to model q) {
  forced = none;
  think = if is_qwen3 lower model then some false else none;
}

abbrev pub fields_or_raise : Value → Option DictItems
fields_or_raise (dict_of fs) = some fs
fields_or_raise null = none
fields_or_raise (boolean b) = none
fields_or_raise (number n) = none
fields_or_raise (text t) = none
fields_or_raise (list_of xs) = none

-- `args if isinstance(args, dict) else json.loads(args)`
abbrev pub args_of : (String → Option Value) → Value → Option Value
args_of loads (dict_of fs) = some (dict_of fs)
args_of loads (text t) = loads t
args_of loads null = none
args_of loads (boolean b) = none
args_of loads (number n) = none
args_of loads (list_of xs) = none

-- `tool_calls[0]["function"]["arguments"]`
abbrev pub call_args : (String → Option Value) → Value → Option Value
call_args loads call = do
  fs ← fields_or_raise call
  function ← get_field "function" fs
  inner ← fields_or_raise function
  args ← get_field "arguments" inner
  args_of loads args

abbrev pub loads_text : (String → Option Value) → Value → Option Value
loads_text loads (text t) = loads t
loads_text loads null = none
loads_text loads (boolean b) = none
loads_text loads (number n) = none
loads_text loads (list_of xs) = none
loads_text loads (dict_of fs) = none

-- `json.loads(msg.get("content", ""))`
abbrev pub content_of : (String → Option Value) → DictItems → Option Value
content_of loads msg = loads_text loads (value_or (text "") (get_field "content" msg))

abbrev pub is_zero_text : String → Bool
is_zero_text n = str_eq n "0" || str_eq n "0.0" || str_eq n "-0.0"

-- The calls of a message: a list that is not empty has a first call; what is falsy goes on to the
-- content; anything else that is not a list raises.
abbrev pub calls_or_content : (String → Option Value) → DictItems → Value → Option Value
calls_or_content loads msg (list_of (element call calls)) = call_args loads call
calls_or_content loads msg (list_of no_element) = content_of loads msg
calls_or_content loads msg null = content_of loads msg
calls_or_content loads msg (boolean false) = content_of loads msg
calls_or_content loads msg (boolean true) = none
calls_or_content loads msg (number n) = if is_zero_text n then content_of loads msg else none
calls_or_content loads msg (text t) = if str_eq t "" then content_of loads msg else none
calls_or_content loads msg (dict_of no_item) = content_of loads msg
calls_or_content loads msg (dict_of (item k v fs)) = none

-- `OllamaProvider.ask`; `none` of the server is a failed request.
unfoldable pub ollama_ask :
    (String → String)
    → (String → Option Value)
    → (Request → Option Value)
    → String
    → Question
    → Option Value
ollama_ask lower loads server model q = do
  answer ← server (ollama_request lower model q)
  body ← fields_or_raise answer
  msg ← fields_or_raise (value_or (dict_of no_item) (get_field "message" body))
  calls_or_content loads msg (value_or (list_of no_element) (get_field "tool_calls" msg))

-- `GeminiProvider.ask`: the candidates, each with its parts.
unfoldable pub gemini_ask : (Request → List (List (Block Value))) → String → Question → Option Value
gemini_ask server model q = do
  schema ← to_gemini_schema q.tool_schema
  elim (server (record (request_to model q) { tool = offered q schema })) [
    | [] ↦ none
    | ◌∷◌ parts candidates ↦ tool_input q.tool_name parts
  ]
