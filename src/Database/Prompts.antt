-- ===== src/Database/Prompts.antt =====
-- The table `agent_prompts` of storage/postgres.py under the prompt store of learning/prompt_store.py.
-- The transaction and its lock make a `save_agent_prompt` one step.
use aicrypto_trader.Base.{
  ℕ, ◌+◌, String, ◌≡◌, ◌≢◌, refl, Option, none, some, Bool, true, false, ◌&&◌, List, [], ◌∷◌, ◌++◌,
  ltb, str_eq, eq_iff, str_eq_refl, arith, if◌then◌else◌, ◌∙◌, ap, inl, inr, Option-cases,
}
use aicrypto_trader.Dict.{get}
use aicrypto_trader.Learning.{Cache, get_prompt, load_prompt, save_prompt, get_prompt-save_prompt}

pub record PromptRow (F : Type 0) : Type 0 where
  pub agent_name : String
  pub version : ℕ
  pub system_prompt : String
  pub perf_score : Option F
  pub active : Bool

-- `get` reads the row of its own agent alone.
get_prompt_reads :
    (read other_read : String → Option (Option String)) (name default : String) (c : Cache)
    → read name ≡ other_read name
    → get_prompt read name default c ≡ get_prompt other_read name default c
unfolding get_prompt
get_prompt_reads read other_read name default c h = elim (Option-cases (get c name)) [
  | inl e ↦ rw (e, get_prompt) (ap (λ r. load_prompt r name default c) h)
  | inr (prompt, e) ↦ rw (e, get_prompt) refl
]

module _ {F : Type 0} where
  -- COALESCE((SELECT MAX(version) FROM agent_prompts WHERE agent_name=$1), 0)
  unfoldable pub max_version : String → List (PromptRow F) → ℕ
  max_version name [] = 0
  max_version name (r ∷ rs) =
      let rest = max_version name rs in
      if str_eq r.agent_name name then (if ltb rest r.version then r.version else rest) else rest

  -- UPDATE agent_prompts SET active=false WHERE agent_name=$1
  unfoldable pub deactivate : String → List (PromptRow F) → List (PromptRow F)
  deactivate name [] = []
  deactivate name (r ∷ rs) =
      (if str_eq r.agent_name name then record r { active = false } else r) ∷ deactivate name rs

  -- The inserted row, whose version is computed from the rows after the UPDATE.
  abbrev new_row : String → String → Option F → List (PromptRow F) → PromptRow F
  new_row name prompt perf rows = record {
    agent_name = name;
    version = max_version name rows + 1;
    system_prompt = prompt;
    perf_score = perf;
    active = true;
  }

  unfoldable pub save_agent_prompt :
      String → String → Option F → List (PromptRow F) → List (PromptRow F)
  save_agent_prompt name prompt perf rows =
      let others = deactivate name rows in others ++ (new_row name prompt perf others ∷ [])

  -- WHERE agent_name=$1 AND active=true ORDER BY version DESC LIMIT 1
  unfoldable pub active_row : String → List (PromptRow F) → Option (PromptRow F)
  active_row name [] = none
  active_row name (r ∷ rs) =
      let rest = active_row name rs in
      if str_eq r.agent_name name && r.active
      then elim rest [ none ↦ some r | some s ↦ if ltb r.version s.version then some s else some r ]
      else rest

  unfoldable pub get_agent_prompt : String → List (PromptRow F) → Option String
  get_agent_prompt name rows = elim (active_row name rows) [
    | none ↦ none
    | some r ↦ some r.system_prompt
  ]

  -- The rows of the agent that are active.
  abbrev pub actives : String → List (PromptRow F) → ℕ
  actives name [] = 0
  actives name (r ∷ rs) =
      if str_eq r.agent_name name && r.active then actives name rs + 1 else actives name rs

  deactivated :
      (name : String) (new : PromptRow F) (rows : List (PromptRow F))
      → new.agent_name ≡ name
      → new.active ≡ true
      → (active_row name (deactivate name rows ++ (new ∷ [])) ≡ some new)
        × (actives name (deactivate name rows ++ (new ∷ [])) ≡ 1)
  unfolding deactivate active_row
  deactivated name new [] h a = ground (arith, str_eq_refl name)
  deactivated name new (r ∷ rs) h a =
      ground (arith, deactivated name new rs h a, eq_iff r.agent_name name)

  others_kept :
      (name other : String) (new : PromptRow F) (rows : List (PromptRow F))
      → new.agent_name ≡ name
      → other ≢ name
      → (active_row other (deactivate name rows ++ (new ∷ [])) ≡ active_row other rows)
        × (actives other (deactivate name rows ++ (new ∷ [])) ≡ actives other rows)
  unfolding deactivate active_row
  others_kept name other new [] h o = ground (arith, eq_iff name other)
  others_kept name other new (r ∷ rs) h o = ground (
    arith,
    others_kept name other new rs h o,
    eq_iff r.agent_name name,
    eq_iff r.agent_name other,
  )

  pub saved_prompt :
      (name prompt : String) (perf : Option F) (rows : List (PromptRow F))
      → (get_agent_prompt name (save_agent_prompt name prompt perf rows) ≡ some prompt)
        × (actives name (save_agent_prompt name prompt perf rows) ≡ 1)
  unfolding save_agent_prompt get_agent_prompt
  saved_prompt name prompt perf rows =
      let both =
        deactivated name (new_row name prompt perf (deactivate name rows)) rows refl refl in
      (rw (both.0, get_agent_prompt) refl, both.1)

  pub other_prompt :
      (name other prompt : String) (perf : Option F) (rows : List (PromptRow F))
      → other ≢ name
      → get_agent_prompt other (save_agent_prompt name prompt perf rows)
        ≡ get_agent_prompt other rows
  unfolding save_agent_prompt get_agent_prompt
  other_prompt name other prompt perf rows o =
      let new = new_row name prompt perf (deactivate name rows) in
      rw ((others_kept name other new rows refl o).0, get_agent_prompt) refl

  -- After a prompt was saved in the table and the store, whatever both held: the agent has exactly
  -- one active row, the next `get` of the store for the agent gives the saved prompt, or the default
  -- when that is empty, and a `get` for any other agent gives what it would have given before.
  pub get_prompt-save_agent_prompt :
      (name other prompt default : String) (perf : Option F) (rows : List (PromptRow F)) (c : Cache)
      → let after = save_agent_prompt name prompt perf rows in
        let read = λ (n : String). some (get_agent_prompt n after) in
        (actives name after ≡ 1)
        × ((get_prompt read name default (save_prompt true name c)).0
            ≡ (if str_eq prompt "" then default else prompt))
        × (other ≢ name
            → (get_prompt read other default (save_prompt true name c)).0
              ≡ (get_prompt (λ n. some (get_agent_prompt n rows)) other default c).0)
  unfolding get_prompt load_prompt
  get_prompt-save_agent_prompt name other prompt default perf rows c =
      let read : String → Option (Option String) =
        λ n. some (get_agent_prompt n (save_agent_prompt name prompt perf rows)) in
      let saved = saved_prompt name prompt perf rows in
      let own = get_prompt-save_prompt read name name default c in
      let others = get_prompt-save_prompt read name other default c in
      (
        saved.1,
        own.0 refl ∙ rw (saved.0) (ground arith),
        λ o.
            others.1 o
            ∙ ap (λ r. r.0)
                (get_prompt_reads read (λ n. some (get_agent_prompt n rows)) other default c
                  (ap some (other_prompt name other prompt perf rows o))),
      )
