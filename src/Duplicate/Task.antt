-- ===== src/Duplicate/Task.antt =====
-- `_score_report_impl` of app/workers/duplicate_tasks.py. Whether a write of the job violates a constraint
-- of the database is an argument; every other database error rolls the job back and is raised for a
-- retry, and is not modelled.
pub mod Rows
pub mod Queue
use matata_backend.Common.{
  ℕ, ℤ, String, Bool, true, false, Option, none, some, List, [], ◌∷◌, if◌then◌else◌,
}
use matata_backend.Common.Table.{find, put}
use matata_backend.Models.{ReportStatus, Report, Database, AuditLog, Json, JsonObject, status_eq}
use matata_backend.Duplicate.Scorer.{
  DuplicateAction, CandidateReport, Incoming, ScoredCandidate, DuplicateResult, score,
}
use matata_backend.Duplicate.Candidates.{load_candidates}

-- The `action` of the task's result.
pub data TaskAction : Type 0 where
  skipped already_actioned error : TaskAction
  decided : DuplicateAction → TaskAction

pub record TaskResult : Type 0 where
  pub action : TaskAction
  pub best_score : ℕ
  pub primary_id : Option ℕ

abbrev append_audit : String → ℕ → Option JsonObject → JsonObject → Database → Database
append_audit operation k before after db = record db {
  audit =
      record {
        operation = operation;
        actor_id_hash = "system";
        record_id = k;
        before_state = before;
        after_state = after;
      }
      ∷ db.audit;
}

-- `UPDATE report SET … WHERE id = :report_id`, for the row that was loaded.
abbrev update_report : ℕ → Report → Database → Database
update_report k r db = record db { reports = put k r db.reports }

unfoldable pub apply_pending_merge_review : ℕ → Report → ℕ → ℕ → Database → Database
apply_pending_merge_review k r primary_id composite_score db =
    append_audit "report.pending_merge_review" k (some (("status", Json.text "pending") ∷ []))
      (("status", Json.text "pending_merge_review")
        ∷ ("possible_duplicate_of_id", Json.num primary_id)
        ∷ ("duplicate_score", Json.num composite_score)
        ∷ ("awaiting", Json.text "analyst_confirmation")
        ∷ [])
      (update_report k
        (record r {
          status = ReportStatus.pending_merge_review;
          possible_duplicate_of_id = some primary_id;
          duplicate_score = some composite_score;
        })
        db)

unfoldable pub apply_analyst_flag : ℕ → Report → ℕ → ℕ → Database → Database
apply_analyst_flag k r primary_id composite_score = update_report k (record r {
  possible_duplicate_of_id = some primary_id;
  duplicate_score = some composite_score;
})

-- `DuplicateAction(...).value`
abbrev action_value : DuplicateAction → String
action_value DuplicateAction.auto_merge = "auto_merge"
action_value DuplicateAction.analyst_flag = "analyst_flag"
action_value DuplicateAction.independent = "independent"

abbrev shown_id : Option ℕ → Json
shown_id none = Json.null
shown_id (some p) = Json.num p

unfoldable pub write_dedup_scored_audit : ℕ → DuplicateAction → ℕ → Option ℕ → Database → Database
write_dedup_scored_audit k action best_score primary_id =
    append_audit "report.duplicate_scored" k none (
      ("action", Json.text (action_value action))
      ∷ ("best_score", Json.num best_score)
      ∷ ("primary_id", shown_id primary_id)
      ∷ [])

abbrev task_result : DuplicateResult → Option ℕ → TaskResult
task_result result primary_id = record {
  action = decided result.action;
  best_score = result.best_score;
  primary_id = primary_id;
}

-- Step 4, by the recommended action and the best candidate.
unfoldable pub apply_action :
    ℕ
    → Report
    → DuplicateResult
    → DuplicateAction
    → Option ScoredCandidate
    → Database
    → TaskResult × Database
apply_action k r result DuplicateAction.auto_merge (some best) db = (
  task_result result (some best.candidate.id),
  apply_pending_merge_review k r best.candidate.id result.best_score db,
)
apply_action k r result DuplicateAction.analyst_flag (some best) db = (
  task_result result (some best.candidate.id),
  write_dedup_scored_audit k result.action result.best_score (some best.candidate.id)
      (apply_analyst_flag k r best.candidate.id result.best_score db),
)
apply_action k r result action best db =
    (task_result result none, write_dedup_scored_audit k result.action result.best_score none db)

-- The keyword arguments that the task passes to `score`.
abbrev pub incoming_of : Report → Incoming
incoming_of r = record {
  building_id = r.building_id;
  lat = r.lat;
  lng = r.lng;
  phash = r.photo_phash;
  crisis_type = r.crisis_type;
  infrastructure_type = r.infrastructure_type;
}

module _ (distance : ℤ → ℤ → ℤ → ℤ → ℕ) (near : ℤ → ℤ → ℤ → ℤ → Bool) (window : ℕ) where
  -- Steps 2 to 4, for a pending report.
  unfoldable pub score_pending :
      ℕ → Report → List CandidateReport → Database → TaskResult × Database
  score_pending k r [] db = (
    record { action = decided DuplicateAction.independent; best_score = 0; primary_id = none },
    write_dedup_scored_audit k DuplicateAction.independent 0 none db,
  )
  score_pending k r (c ∷ cs) db =
      let result = score distance (incoming_of r) (c ∷ cs) in
      apply_action k r result result.action result.best_candidate db

  -- The job, and its rollback if a write raises an `IntegrityError`.
  unfoldable pub score_report : Bool → ℕ → Database → TaskResult × Database
  score_report violates k db = elim (find k db.reports) [
    | none ↦ (record { action = skipped; best_score = 0; primary_id = none }, db)
    | some r ↦
        if status_eq r.status ReportStatus.pending
        then (if violates
            then (record { action = error; best_score = 0; primary_id = none }, db)
            else score_pending k r (load_candidates near window k r db.reports) db)
        else (record { action = already_actioned; best_score = 0; primary_id = none }, db)
  ]
