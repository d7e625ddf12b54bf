-- ===== src/Agents/Llm/Asks/Named.antt =====
-- Which of the providers return only the arguments of the tool that was asked for.
use aicrypto_trader.Base.{
  String, ◌≡◌, ◌⊎◌, refl, inl, inr, Option, none, some, List, [], ◌∷◌, str_eq, eq_iff, Bool-cases,
}
use aicrypto_trader.Agents.Llm.{Block, tool_use, other_block, tool_input}
use aicrypto_trader.Agents.Llm.Json.{
  Value, ListItems, DictItems, list_of, dict_of, element, get_field,
}
use aicrypto_trader.Agents.Llm.Schema.{to_gemini_schema}
use aicrypto_trader.Agents.Llm.Asks.{
  Request, Question, FunctionCall, request_to, offered, anthropic_ask, openai_ask, ollama_request,
  ollama_ask, gemini_ask,
}

-- The arguments are those of a block that calls the tool.
abbrev pub Calls : String → Value → List (Block Value) → Type 0
Calls name v [] = ⊥
Calls name v (tool_use n x ∷ bs) = ((n ≡ name) × (x ≡ v)) ⊎ Calls name v bs
Calls name v (other_block ∷ bs) = Calls name v bs

tool_input-Calls :
    (name : String) (v : Value) (bs : List (Block Value))
    → tool_input name bs ≡ some v
    → Calls name v bs
unfolding tool_input
tool_input-Calls name v [] h = absurd (cc h)
tool_input-Calls name v (tool_use n x ∷ bs) h = elim (Bool-cases (str_eq n name)) [
  | inl e ↦ inl ((eq_iff n name).0 e, cc (rw e at h))
  | inr e ↦ inr (tool_input-Calls name v bs (rw e at h))
]
tool_input-Calls name v (other_block ∷ bs) h = tool_input-Calls name v bs h

-- The first choice calls the tool first, with a text that reads as the arguments.
abbrev pub CallsFirst : (String → Option Value) → String → Value → List (List FunctionCall) → Type 0
CallsFirst loads name v [] = ⊥
CallsFirst loads name v ([] ∷ choices) = ⊥
CallsFirst loads name v ((c ∷ cs) ∷ choices) = (c.name ≡ name) × (loads c.arguments ≡ some v)

abbrev pub FirstCalls : String → Value → List (List (Block Value)) → Type 0
FirstCalls name v [] = ⊥
FirstCalls name v (parts ∷ candidates) = Calls name v parts

module _ (loads : String → Option Value) (model : String) (q : Question) where
  -- Anthropic's answer is searched for the tool.
  abbrev pub AnthropicNamed : Type 0
  AnthropicNamed =
      (server : Request → List (Block Value)) (v : Value)
      → anthropic_ask server model q ≡ some v
      → Calls q.tool_name v (server (record (request_to model q) { max_tokens = some 1_024 }))

  abbrev pub OpenaiNamed : Type 0
  OpenaiNamed =
      (server : Request → List (List FunctionCall)) (v : Value)
      → openai_ask loads server model q ≡ some v
      → CallsFirst loads q.tool_name v (server (request_to model q))

  abbrev pub GeminiNamed : Type 0
  GeminiNamed =
      (server : Request → List (List (Block Value))) (v : Value)
      → gemini_ask server model q ≡ some v
      → (schema : DictItems) × (to_gemini_schema q.tool_schema ≡ some schema)
        × FirstCalls q.tool_name v
            (server (record (request_to model q) { tool = offered q schema }))

  openai_named : OpenaiNamed
  unfolding openai_ask
  openai_named server v h = go (server (request_to model q)) refl
    where
      go :
          (answer : List (List FunctionCall))
          → server (request_to model q) ≡ answer
          → CallsFirst loads q.tool_name v (server (request_to model q))
      go [] e = absurd (cc (rw (e, openai_ask) at h))
      go ([] ∷ choices) e = absurd (cc (rw (e, openai_ask) at h))
      go ((c ∷ cs) ∷ choices) e =
          let h' = rw (e, openai_ask) at h in
          rw e (elim (Bool-cases (str_eq c.name q.tool_name)) [
            | inl own ↦ ((eq_iff c.name q.tool_name).0 own, rw own at h')
            | inr other ↦ absurd (cc (rw other at h'))
          ])

  gemini_named : GeminiNamed
  unfolding gemini_ask
  gemini_named server v h = go (to_gemini_schema q.tool_schema) refl
    where
      answered :
          (schema : DictItems) (answer : List (List (Block Value)))
          → server (record (request_to model q) { tool = offered q schema }) ≡ answer
          → to_gemini_schema q.tool_schema ≡ some schema
          → FirstCalls q.tool_name v
              (server (record (request_to model q) { tool = offered q schema }))
      answered schema [] a e = absurd (cc (rw (e, a, gemini_ask) at h))
      answered schema (parts ∷ candidates) a e =
          rw a (tool_input-Calls q.tool_name v parts (rw (e, a, gemini_ask) at h))

      go :
          (s : Option DictItems)
          → to_gemini_schema q.tool_schema ≡ s
          → (schema : DictItems) × (to_gemini_schema q.tool_schema ≡ some schema)
            × FirstCalls q.tool_name v
                (server (record (request_to model q) { tool = offered q schema }))
      go none e = absurd (cc (rw (e, gemini_ask) at h))
      go (some schema) e = (schema, e, answered schema _ refl e)

  -- What Anthropic's, OpenAI's and Gemini's providers return are the arguments of a call of the very
  -- tool that was asked for: of any block, of the first call of the first choice, and of any part of
  -- the first candidate. Any other answer raises.
  pub asks_named : AnthropicNamed × OpenaiNamed × GeminiNamed
  unfolding anthropic_ask
  asks_named = (λ server v h. tool_input-Calls q.tool_name v _ h, openai_named, gemini_named)

  -- Ollama's provider does not look at the name of the call: if the first call of the message has a
  -- dict for its arguments, then this is the result, whatever tool the model has called.
  pub ollama_ask_unnamed :
      (lower : String → String) (server : Request → Option Value)
      (body msg call inner args : DictItems) (calls : ListItems)
      → server (ollama_request lower model q) ≡ some (dict_of body)
      → get_field "message" body ≡ some (dict_of msg)
      → get_field "tool_calls" msg ≡ some (list_of (element (dict_of call) calls))
      → get_field "function" call ≡ some (dict_of inner)
      → get_field "arguments" inner ≡ some (dict_of args)
      → ollama_ask lower loads server model q ≡ some (dict_of args)
  unfolding ollama_ask
  ollama_ask_unnamed lower server body msg call inner args calls s m t f a =
      rw (s, m, t, f, a, ollama_ask) refl
