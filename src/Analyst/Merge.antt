-- ===== src/Analyst/Merge.antt =====
-- Manual merges, and the confirmation or rejection of a merge that duplicate detection has queued:
-- `merge_reports`, `confirm_pending_merge` and `reject_pending_merge` of
-- app/services/analyst_service.py. A session returns the same object for the same id, so the
-- primary that the loop reads is the row as the loop has left it.
use matata_backend.Common.{ℕ, ◌+◌, String, not, ◌&&◌, Option, none, some, List, [], ◌∷◌, truthy}
use matata_backend.Common.Table.{find}
use matata_backend.Models.{ReportStatus, Report, Json, status_value, status_eq}
use matata_backend.Analyst.Monad.{
  not_pending_merge, missing_possible_duplicate, Action, pure, raise, ◌>>=◌, ◌>>◌, require, when,
  find_report, save_report, write_audit_log,
}

-- The primary takes the duplicate's photo if it has none of its own.
abbrev inherit_photo : ℕ → Option String → Action (Unit {0})
inherit_photo primary_id photo = do
  primary ← find_report primary_id
  when (truthy photo && not (truthy primary.photo_url))
      (save_report primary_id (record primary { photo_url = photo }))

unfoldable pub merge_one : ℕ → String → ℕ → Action (Unit {0})
merge_one primary_id analyst dup_id = do
  dup ← find_report dup_id
  save_report dup_id
      (record dup { status = ReportStatus.duplicate; duplicate_of_id = some primary_id })
  inherit_photo primary_id dup.photo_url
  write_audit_log "report.manual_merge" analyst dup_id
      (some (("status", Json.text (status_value dup.status)) ∷ []))
      (("status", Json.text "duplicate")
        ∷ ("duplicate_of_id", Json.num primary_id)
        ∷ ("merged_by", Json.text "analyst")
        ∷ [])

-- The loop over `duplicate_ids`, with the count so far.
unfoldable pub merge_loop : ℕ → String → ℕ → List ℕ → Action ℕ
merge_loop primary_id analyst count [] = pure count
merge_loop primary_id analyst count (dup_id ∷ ids) =
    merge_one primary_id analyst dup_id >> merge_loop primary_id analyst (count + 1) ids

-- Returns `merged_count`. The responder's region is an argument that the source does not use.
unfoldable pub merge_reports : ℕ → List ℕ → String → Action ℕ
merge_reports primary_id duplicate_ids analyst = do
  find_report primary_id
  merge_loop primary_id analyst 0 duplicate_ids

-- The report's possible primary, if it waits for a merge review.
abbrev possible_primary : Report → Action ℕ
possible_primary r = elim r.possible_duplicate_of_id [
  | none ↦ raise missing_possible_duplicate
  | some p ↦ pure p
]

-- As `inherit_photo`, for a primary that may have been deleted.
abbrev offer_photo : ℕ → Option String → Action (Unit {0})
offer_photo primary_id photo db = elim (find primary_id db.reports) [
  | none ↦ (pure tt) db
  | some primary ↦
      when (truthy photo && not (truthy primary.photo_url))
        (save_report primary_id (record primary { photo_url = photo })) db
]

-- Returns the id of the primary that the report was merged into.
unfoldable pub confirm_pending_merge : ℕ → String → Action ℕ
confirm_pending_merge k analyst = do
  report ← find_report k
  require (status_eq report.status ReportStatus.pending_merge_review) not_pending_merge
  primary_id ← possible_primary report
  save_report k (record report {
    status = ReportStatus.duplicate;
    duplicate_of_id = some primary_id;
    possible_duplicate_of_id = none;
  })
  when (truthy report.photo_url) (offer_photo primary_id report.photo_url)
  write_audit_log "report.confirm_merge" analyst k
      (some (("status", Json.text "pending_merge_review") ∷ []))
      (("status", Json.text "duplicate")
        ∷ ("duplicate_of_id", Json.num primary_id)
        ∷ ("confirmed_by", Json.text "analyst")
        ∷ [])
  pure primary_id

-- `str(report.possible_duplicate_of_id)`
abbrev shown_primary : Option ℕ → Json
shown_primary none = Json.text "None"
shown_primary (some p) = Json.num p

unfoldable pub reject_pending_merge : ℕ → String → Action (Unit {0})
reject_pending_merge k analyst = do
  report ← find_report k
  require (status_eq report.status ReportStatus.pending_merge_review) not_pending_merge
  save_report k (record report {
    status = ReportStatus.pending;
    possible_duplicate_of_id = none;
    duplicate_score = none;
  })
  write_audit_log "report.reject_merge" analyst k
      (some (
        ("status", Json.text "pending_merge_review")
        ∷ ("possible_duplicate_of_id", shown_primary report.possible_duplicate_of_id)
        ∷ []))
      (("status", Json.text "pending") ∷ ("merge_rejected_by", Json.text "analyst") ∷ [])
