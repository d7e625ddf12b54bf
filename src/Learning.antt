-- ===== src/Learning.antt =====
-- backend/src/cryptoswarm/learning/prompt_store.py: the versioned prompts of the agents.
-- The database is a parameter: `read` gives the active prompt of an agent, if there is one; `none`
-- is an exception. `saves` says whether the insertion of a new version ends without an exception.
pub mod Evolution
use aicrypto_trader.Base.{
  String, Option, none, some, Bool, true, str_eq, if◌then◌else◌, ◌≡◌, ◌≢◌, arith, eq_iff,
}
use aicrypto_trader.Dict.{Dict, get, put, pop, get-pop}

-- `self._cache`
abbrev pub Cache : Type 0
Cache = Dict String

-- `get` when the cache has no entry: an empty prompt counts as missing.
unfoldable pub load_prompt : Option (Option String) → String → String → Cache → String × Cache
load_prompt none name default c = (default, c)
load_prompt (some none) name default c = (default, c)
load_prompt (some (some prompt)) name default c =
    if str_eq prompt "" then (default, c) else (prompt, put c name prompt)

-- `PromptStore.get`
unfoldable pub get_prompt :
    (String → Option (Option String)) → String → String → Cache → String × Cache
get_prompt read name default c = elim (get c name) [
  | none ↦ load_prompt (read name) name default c
  | some prompt ↦ (prompt, c)
]

-- `PromptStore.invalidate`
unfoldable pub invalidate : String → Cache → Cache
invalidate name c = pop c name

-- `PromptStore.save`, where `saves` says whether the database took the prompt.
unfoldable pub save_prompt : Bool → String → Cache → Cache
save_prompt saves name c = if saves then invalidate name c else c

-- After a prompt of an agent was saved, the next `get` of this agent reads the database, whatever the
-- cache held, and a `get` of any other agent gives what it would have given before.
pub get_prompt-save_prompt :
    (read : String → Option (Option String)) (name other default : String) (c : Cache)
    → (other ≡ name
        → (get_prompt read other default (save_prompt true name c)).0
          ≡ (load_prompt (read other) other default c).0)
      × (other ≢ name
          → (get_prompt read other default (save_prompt true name c)).0
            ≡ (get_prompt read other default c).0)
unfolding get_prompt save_prompt invalidate load_prompt
get_prompt-save_prompt read name other default c =
    ground (arith, get-pop c name other, eq_iff name other)
