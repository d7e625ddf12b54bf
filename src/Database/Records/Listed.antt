-- ===== src/Database/Records/Listed.antt =====
-- The lists of stored records show the latest first, and an update of a training run finds its row.
use aicrypto_trader.Base.{
  ℕ, ◌<◌, String, ◌≡◌, refl, ap, ◌∙◌, some, true, false, List, [], ◌∷◌, ◌++◌, All, arith, ltb, ◌==◌,
  take,
}
use aicrypto_trader.Agents.Messages.{DirectorDecision}
use aicrypto_trader.Agents.Director.{Results}
use aicrypto_trader.Database.Records.{
  latest_first, inserted, IsLaterThan, AreInOrder, DecisionRow, decision_row, insert_decision,
  list_decisions, TrainingRun, TrainingRuns, insert_training_run, completed_run, complete_rows,
  update_training_run,
}

module _ {A : Type 0} where
  append-IsLaterThan :
      (ts : ℕ) (rs : List (ℕ × A)) (r : ℕ × A)
      → IsLaterThan ts rs
      → r.0 < ts
      → IsLaterThan ts (rs ++ (r ∷ []))
  append-IsLaterThan ts [] r h l = (l, tt)
  append-IsLaterThan ts (s ∷ rs) r (l', h) l = (l', append-IsLaterThan ts rs r h l)

  inserted-IsLaterThan :
      (ts : ℕ) (log : List (ℕ × A)) → IsLaterThan ts log → IsLaterThan ts (inserted log)
  inserted-IsLaterThan ts [] h = tt
  inserted-IsLaterThan ts (r ∷ log) (l, h) =
      append-IsLaterThan ts (inserted log) r (inserted-IsLaterThan ts log h) l

  -- A row that is later than all the others is listed before them.
  latest_first-append :
      (r : ℕ × A) (rs : List (ℕ × A))
      → IsLaterThan (r.0) rs
      → latest_first (rs ++ (r ∷ [])) ≡ r ∷ latest_first rs
  unfolding latest_first
  latest_first-append r [] h = refl
  latest_first-append r (s ∷ rs) (l, h) =
      let before : ltb (s.0) (r.0) ≡ true = ground (arith, l) in
      rw (latest_first-append r rs h, before) refl

  -- After insertions in the order of time, the rows are listed in the opposite order.
  pub latest_first-inserted :
      (log : List (ℕ × A)) → AreInOrder log → latest_first (inserted log) ≡ log
  unfolding latest_first
  latest_first-inserted [] h = refl
  latest_first-inserted (r ∷ log) (l, h) =
      latest_first-append r (inserted log) (inserted-IsLaterThan (r.0) log l)
      ∙ ap (λ rs. r ∷ rs) (latest_first-inserted log h)

module _ {F : Type 0} where
  -- The table of the decisions after a log of them, whose latest is first.
  abbrev pub decisions_after : List (ℕ × DirectorDecision F × Results F) → List (ℕ × DecisionRow F)
  decisions_after [] = []
  decisions_after ((ts, d, r) ∷ log) = insert_decision ts d r (decisions_after log)

  abbrev pub decision_rows : List (ℕ × DirectorDecision F × Results F) → List (ℕ × DecisionRow F)
  decision_rows [] = []
  decision_rows ((ts, d, r) ∷ log) = (ts, decision_row d r) ∷ decision_rows log

  decisions_after-inserted :
      (log : List (ℕ × DirectorDecision F × Results F))
      → decisions_after log ≡ inserted (decision_rows log)
  unfolding insert_decision
  decisions_after-inserted [] = refl
  decisions_after-inserted ((ts, d, r) ∷ log) =
      ap (λ rows. rows ++ ((ts, decision_row d r) ∷ [])) (decisions_after-inserted log)

  -- The route lists the decisions that were stored last, the latest first, when each was stored
  -- later than those before it.
  pub list_decisions-latest :
      (limit : ℕ) (log : List (ℕ × DirectorDecision F × Results F))
      → AreInOrder (decision_rows log)
      → list_decisions limit (decisions_after log) ≡ take limit (decision_rows log)
  unfolding list_decisions
  list_decisions-latest limit log h =
      ap (λ rows. take limit (latest_first rows)) (decisions_after-inserted log)
      ∙ ap (take limit) (latest_first-inserted (decision_rows log) h)

abbrev IsBelow : ℕ → TrainingRun → Type 0
IsBelow n r = r.id < n

complete_rows-append :
    (id finished n : ℕ) (metrics : String) (rs : List TrainingRun) (r : TrainingRun)
    → All (IsBelow id) rs
    → r.id ≡ id
    → complete_rows id finished n metrics (rs ++ (r ∷ []))
      ≡ rs ++ (completed_run finished n metrics r ∷ [])
complete_rows-append id finished n metrics [] r h e =
    let same : (r.id == id) ≡ true = ground (arith, e) in rw same refl
complete_rows-append id finished n metrics (s ∷ rs) r (l, h) e =
    let other : (s.id == id) ≡ false = ground (arith, l) in
    rw other (ap (λ xs. s ∷ xs) (complete_rows-append id finished n metrics rs r h e))

-- The id that an insertion returns is that of the new row: the update with it completes this row and
-- no other, when the serial column has passed the ids in the table.
pub update_training_run-insert_training_run :
    (model_type metrics : String) (started finished n : ℕ) (t : TrainingRuns)
    → All (λ r. r.id < t.next_id) t.rows
    → let made = insert_training_run model_type started t in
      (update_training_run (made.0) finished n metrics (made.1)).rows
      ≡ t.rows
        ++ (record {
          id = t.next_id;
          model_type = model_type;
          started_at = started;
          completed_at = some finished;
          sample_count = some n;
          metrics = some metrics;
        }
            ∷ [])
unfolding insert_training_run update_training_run
update_training_run-insert_training_run model_type metrics started finished n t h =
    complete_rows-append t.next_id finished n metrics t.rows _ h refl
