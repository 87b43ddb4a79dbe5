-- ===== src/Submission/Followup.antt =====
-- The reporter's side of a request for more information: `get_own_report` and `add_reporter_followup` of
-- app/services/submission_service.py. The hash of a token, the text sanitiser's two passes and the clock
-- are arguments.
pub mod Answer
use matata_backend.Common.{
  ℕ, String, ◌<>◌, Bool, not, ◌&&◌, Option, none, some, [], ◌∷◌, truthy, is_some, ltb, ◌same_as◌,
  if◌then◌else◌,
}
use matata_backend.Models.{ReviewPriority, Report, Json}
use matata_backend.Analyst.Monad.{
  empty_message, not_owner, no_info_request, Action, pure, ◌>>=◌, ◌>>◌, require, find_report,
  save_report, add_note, write_audit_log,
}
use matata_backend.Analyst.Review.{sanitise_text, unwrap}
use matata_backend.Ai.Priority.{priority_rank}

unfoldable pub get_own_report : (String → String) → ℕ → String → Action Report
get_own_report hash_token k token = do
  report ← find_report k
  require (report.reporter_token_hash same_as hash_token token) not_owner
  pure report

-- Something was asked, and it is not answered yet.
abbrev pub has_open_request : Report → Bool
has_open_request r = is_some r.info_requested_at && not (is_some r.info_responded_at)

-- An answer moves the report up the queue, to `high` at least.
abbrev pub raised_priority : ReviewPriority → ReviewPriority
raised_priority p =
    if ltb (priority_rank p) (priority_rank ReviewPriority.high) then ReviewPriority.high else p

unfoldable pub add_reporter_followup :
    (String → String)
    → (String → String)
    → (String → String)
    → ℕ
    → String
    → String
    → ℕ
    → Action Report
add_reporter_followup hash_token strip_dangerous clean k token text_body now = do
  report ← get_own_report hash_token k token
  require (has_open_request report) no_info_request
  let cleaned = sanitise_text strip_dangerous clean (some text_body) 2000
  require (truthy cleaned) empty_message
  let report' : Report = record report {
    reporter_followup = cleaned;
    info_responded_at = some now;
    review_priority = raised_priority report.review_priority;
  }
  save_report k report'
  add_note (record {
    report_id = k;
    analyst_id_hash = "reporter";
    body = "Reporter replied: " <> unwrap cleaned;
  })
  write_audit_log "report.reporter_followup" (hash_token token) k none
      (("reporter_followup", Json.text (unwrap cleaned)) ∷ [])
  pure report'
