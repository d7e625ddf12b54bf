-- ===== src/Agents/Llm.antt =====
-- backend/src/cryptoswarm/agents/llm.py: which language model an agent talks to.
-- A provider is described by what it is built with. What it asks of the library behind it, and what it
-- reads in the answer, is in Asks, and the schema that Gemini gets in Schema.
pub mod Json
pub mod Schema
pub mod Asks
use Prim.Native.Char.{Char, code}
use aicrypto_trader.Base.{
  ℕ, ◌+◌, String, ◌≡◌, refl, Option, none, some, Bool, true, false, ◌&&◌, List, [], ◌∷◌, leb, ◌==◌,
  str_eq, if◌then◌else◌, if_intro, arith,
}
use aicrypto_trader.Config.{Settings, ProviderName, anthropic, openai, openrouter, ollama, gemini}
use aicrypto_trader.Config.Symbols.{strip}

-- Each with its key or address and its model; OpenAI's with another address, if there is one.
pub data Provider : Type 0 where
  anthropic_provider gemini_provider ollama_provider : String → String → Provider
  openai_provider : String → String → Option String → Provider

-- The agents that `main` makes clients for.
pub data LlmAgent : Type 0 where
  quant risk portfolio director : LlmAgent

-- A client, or the `ValueError`.
pub data LlmClient : Type 0 where
  client : Provider → LlmClient
  no_colon : LlmAgent → String → LlmClient
  unknown_provider : String → LlmClient

abbrev openrouter_url : String
openrouter_url = "https://openrouter.ai/api/v1"

-- `_make_provider`; the settings admit only the five names.
unfoldable pub make_provider : {F : Type 0} → Settings F → Provider
make_provider s = elim (s.llm_provider) [
  | anthropic ↦ anthropic_provider s.anthropic_api_key s.anthropic_model
  | openai ↦ openai_provider s.openai_api_key s.openai_model none
  | openrouter ↦ openai_provider s.openrouter_api_key s.openrouter_model (some openrouter_url)
  | ollama ↦ ollama_provider s.ollama_url s.ollama_model
  | gemini ↦ gemini_provider s.gemini_api_key s.gemini_model
]

-- The code point of an ASCII letter in lower case; another character is left.
abbrev lower_code : ℕ → ℕ
lower_code c = if leb 65 c && leb c 90 then c + 32 else c

-- `s.lower() == name` for a name in lower case of ASCII letters other than `k`: no other character is
-- lowered to such a letter.
unfoldable pub is_name : String → String → Bool
is_name String.[] String.[] = true
is_name String.[] (String.◌∷◌ d t) = false
is_name (String.◌∷◌ c s) String.[] = false
is_name (String.◌∷◌ c s) (String.◌∷◌ d t) = lower_code (code c) == code d && is_name s t

-- The tests of `_make_provider_named`, in their order.
unfoldable pub provider_named : String → Option ProviderName
provider_named name =
    if is_name name "anthropic"
    then some anthropic
    else if is_name name "openai"
    then some openai
    else if is_name name "openrouter"
    then some openrouter
    else if is_name name "ollama"
    then some ollama
    else if is_name name "gemini"
    then some gemini
    else none

abbrev provider_with : {F : Type 0} → ProviderName → String → Settings F → Provider
provider_with anthropic model s = anthropic_provider s.anthropic_api_key model
provider_with openai model s = openai_provider s.openai_api_key model none
provider_with openrouter model s = openai_provider s.openrouter_api_key model (some openrouter_url)
provider_with ollama model s = ollama_provider s.ollama_url model
provider_with gemini model s = gemini_provider s.gemini_api_key model

-- `_make_provider_named`
unfoldable pub make_provider_named : {F : Type 0} → String → String → Settings F → LlmClient
make_provider_named provider_name model s = elim (provider_named (strip provider_name)) [
  | none ↦ unknown_provider (strip provider_name)
  | some p ↦ client (provider_with p model s)
]

-- The field of the settings that is named after the agent.
abbrev pub override_of : {F : Type 0} → LlmAgent → Settings F → String
override_of quant s = s.quant_llm
override_of risk s = s.risk_llm
override_of portfolio s = s.portfolio_llm
override_of director s = s.director_llm

abbrev push_char : Char → Option (String × String) → Option (String × String)
push_char c none = none
push_char c (some (head, tail)) = some (String.◌∷◌ c head, tail)

-- `text.split(":", 1)` in two parts, or `none` if there is no colon.
unfoldable pub split_colon : String → Option (String × String)
split_colon String.[] = none
split_colon (String.◌∷◌ c s) =
    let rest = split_colon s in if code c == b':' then some (String.[], s) else push_char c rest

-- `make_llm_for_agent`
unfoldable pub make_llm_for_agent : {F : Type 0} → LlmAgent → Settings F → LlmClient
make_llm_for_agent agent s =
    let override = strip (override_of agent s) in
    if str_eq override "" then client (make_provider s) else elim (split_colon override) [
      | none ↦ no_colon agent override
      | some (provider_name, model) ↦ make_provider_named provider_name model s
    ]

-- The model of the global provider.
abbrev pub global_model : {F : Type 0} → Settings F → String
global_model s = elim (s.llm_provider) [
  | anthropic ↦ s.anthropic_model
  | openai ↦ s.openai_model
  | openrouter ↦ s.openrouter_model
  | ollama ↦ s.ollama_model
  | gemini ↦ s.gemini_model
]

provider_with-make_provider :
    {F : Type 0} (s : Settings F)
    → provider_with s.llm_provider (global_model s) s ≡ make_provider s
unfolding make_provider
provider_with-make_provider s = ground arith

-- An override that names the global provider, in any case and with spaces around it, and the model
-- configured for it gives the agent the same client as no override at all.
pub make_llm_for_agent_global :
    {F : Type 0} (agent : LlmAgent) (s : Settings F) (name : String)
    → split_colon (strip (override_of agent s)) ≡ some (name, global_model s)
    → provider_named (strip name) ≡ some s.llm_provider
    → make_llm_for_agent agent s ≡ client (make_provider s)
unfolding make_llm_for_agent make_provider_named
make_llm_for_agent_global agent s name split named =
    if_intro (λ (c : LlmClient). c ≡ client (make_provider s))
      (str_eq (strip (override_of agent s)) "") _ _ (λ _. refl)
      (λ _. rw split (rw (named, make_provider_named, provider_with-make_provider s) refl))

-- A block of a provider's response: a call of a tool with its arguments, or anything else.
pub data Block (A : Type 0) : Type 0 where
  tool_use : String → A → Block A
  other_block : Block A

-- The arguments of the first call of the tool; `none` is the `RuntimeError`.
unfoldable pub tool_input : {A : Type 0} → String → List (Block A) → Option A
tool_input name [] = none
tool_input name (tool_use n x ∷ blocks) =
    let rest = tool_input name blocks in if str_eq n name then some x else rest
tool_input name (other_block ∷ blocks) = tool_input name blocks
