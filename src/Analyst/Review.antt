-- ===== src/Analyst/Review.antt =====
-- The other writes of an analyst: `create_analyst_note`, `request_more_info` and
-- `set_severity_override` of app/services/analyst_service.py.
use matata_backend.Common.{
  ℕ, zero, suc, String, ◌<>◌, Bool, true, false, Option, none, some, [], ◌∷◌, truthy,
}
use matata_backend.Models.{ReportStatus, ReportDamageSeverity, Report, Json, severity_value}
use matata_backend.Analyst.Monad.{
  empty_message, already_decided, Action, pure, ◌>>=◌, ◌>>◌, require, find_report, save_report,
  add_note, write_audit_log, log_ai_feedback,
}
use matata_backend.Analyst.Transition.{predicted_severity}

-- `text[:n]`
abbrev take_text : ℕ → String → String
take_text zero s = String.[]
take_text (suc n) String.[] = String.[]
take_text (suc n) (String.◌∷◌ c s) = String.◌∷◌ c (take_text n s)

-- `_sanitise_text` of app/services/submission_service.py: what the two third-party passes (a regular
-- expression's substitution, and `bleach.clean`) leave is cut to the length.
unfoldable pub sanitise_text :
    (String → String) → (String → String) → Option String → ℕ → Option String
sanitise_text strip_dangerous clean none n = none
sanitise_text strip_dangerous clean (some s) n = some (take_text n (clean (strip_dangerous s)))

unfoldable pub create_analyst_note : ℕ → String → String → Action (Unit {0})
create_analyst_note k body analyst = do
  find_report k
  add_note (record { report_id = k; analyst_id_hash = analyst; body = body })

-- `_INFO_REQUEST_STATUSES`
abbrev pub awaits_review : ReportStatus → Bool
awaits_review ReportStatus.pending = true
awaits_review ReportStatus.pending_merge_review = true
awaits_review _ = false

abbrev shown : Option String → Json
shown none = Json.null
shown (some s) = Json.text s

abbrev pub unwrap : Option String → String
unwrap none = ""
unwrap (some s) = s

unfoldable pub request_more_info :
    (String → String) → (String → String) → ℕ → String → String → ℕ → Action Report
request_more_info strip_dangerous clean k message analyst now = do
  let cleaned = sanitise_text strip_dangerous clean (some message) 1000
  require (truthy cleaned) empty_message
  report ← find_report k
  require (awaits_review report.status) already_decided
  let report' : Report = record report {
    info_request_message = cleaned;
    info_requested_at = some now;
    reporter_followup = none;
    info_responded_at = none;
  }
  save_report k report'
  add_note (record {
    report_id = k;
    analyst_id_hash = analyst;
    body = "Asked the reporter for more information: " <> unwrap cleaned;
  })
  write_audit_log "report.info_requested" analyst k
      (some (
        ("info_request_message", shown report.info_request_message)
        ∷ ("reporter_followup", shown report.reporter_followup)
        ∷ []))
      (("info_request_message", shown cleaned) ∷ [])
  pure report'

abbrev shown_severity : Option ReportDamageSeverity → Json
shown_severity none = Json.null
shown_severity (some s) = Json.text (severity_value s)

unfoldable pub set_severity_override : ℕ → ReportDamageSeverity → String → Action (Unit {0})
set_severity_override k override analyst = do
  report ← find_report k
  save_report k (record report { analyst_severity_override = some override })
  write_audit_log "report.severity_override" analyst k
      (some (("analyst_severity_override", shown_severity report.analyst_severity_override) ∷ []))
      (("analyst_severity_override", Json.text (severity_value override)) ∷ [])
  log_ai_feedback k "severity_override" (predicted_severity report) (some (severity_value override))
      report.ai_confidence
