-- ===== src/Analyst/Transition.antt =====
-- `transition_report_status` of app/services/analyst_service.py.
pub mod Accept
pub mod Effect
use mathlib.Core.List.{[]}
use matata_backend.Common.{
  ℕ, ◌+◌, ◌-◌, min, String, Bool, true, false, ◌||◌, Option, none, some, ◌∷◌, ◌++◌, truthy,
  ◌same_as◌, if◌then◌else◌,
}
use matata_backend.Models.{ReportStatus, Report, Json, JsonObject, status_value, severity_value}
use matata_backend.Analyst.Monad.{
  invalid_target, missing_reason, invalid_reason, invalid_transition, Action, pure, raise, ◌>>=◌,
  ◌>>◌, require, modify, when, find_report, save_report, add_note, write_audit_log, log_ai_feedback,
}
use matata_backend.Analyst.Severity.{recompute_building_severity}

-- The statuses that an analyst may set.
abbrev pub is_target : ReportStatus → Bool
is_target ReportStatus.verified = true
is_target ReportStatus.rejected = true
is_target ReportStatus.duplicate = true
is_target _ = false

-- `_REJECTION_REASON_CODES`
unfoldable pub is_reason_code : String → Bool
is_reason_code c =
    c same_as "inaccurate"
    || c same_as "duplicate"
    || c same_as "poor_quality"
    || c same_as "out_of_scope"
    || c same_as "other"

abbrev check_reason_code : Option String → Action (Unit {0})
check_reason_code none = raise missing_reason
check_reason_code (some c) = do
  require (truthy (some c)) missing_reason
  require (is_reason_code c) invalid_reason

abbrev check_reason : ReportStatus → Option String → Action (Unit {0})
check_reason ReportStatus.rejected reason = check_reason_code reason
check_reason _ reason = pure tt

-- `current_status in _VALID_STATUS_TRANSITIONS[new_status]`
abbrev pub is_allowed : ReportStatus → ReportStatus → Bool
is_allowed ReportStatus.verified ReportStatus.pending = true
is_allowed ReportStatus.verified ReportStatus.rejected = true
is_allowed ReportStatus.rejected ReportStatus.pending = true
is_allowed ReportStatus.rejected ReportStatus.verified = true
is_allowed ReportStatus.duplicate ReportStatus.pending = true
is_allowed _ _ = false

-- The trust tier after the transition: at most 2, at least 0.
abbrev pub tier_after : ReportStatus → ℕ → ℕ
tier_after ReportStatus.verified tier = min (tier + 1) 2
tier_after ReportStatus.rejected tier = tier - 1
tier_after _ tier = tier

abbrev pub state_of : ReportStatus → ℕ → JsonObject
state_of s tier =
    ("status", Json.text (status_value s)) ∷ ("reporter_trust_tier", Json.num tier) ∷ []

abbrev pub reason_field : Option String → JsonObject
reason_field none = []
reason_field (some c) = if truthy (some c) then ("reason_code", Json.text c) ∷ [] else []

abbrev pub notes_field : Option String → JsonObject
notes_field notes = if truthy notes then ("notes_attached", Json.flag true) ∷ [] else []

abbrev attach_notes : ℕ → String → Option String → Action (Unit {0})
attach_notes k analyst none = pure tt
attach_notes k analyst (some body) =
    when (truthy (some body))
      (add_note (record { report_id = k; analyst_id_hash = analyst; body = body }))

-- The analyst's own severity if there is one, and the reporter's if not.
abbrev pub decided_severity : Report → String
decided_severity r = elim r.analyst_severity_override [
  | none ↦ severity_value r.damage_severity
  | some s ↦ severity_value s
]

abbrev pub predicted_severity : Report → Option String
predicted_severity r = elim r.ai_severity_prediction [
  | none ↦ none
  | some s ↦ some (severity_value s)
]

-- `_STATUS_TO_FEEDBACK_TYPE`, and the row that is logged under it.
abbrev log_decision : ReportStatus → ℕ → Report → Action (Unit {0})
log_decision ReportStatus.verified k r =
    log_ai_feedback k "verify" (predicted_severity r) (some (decided_severity r)) r.ai_confidence
log_decision ReportStatus.rejected k r =
    log_ai_feedback k "reject" (predicted_severity r) (some (decided_severity r)) r.ai_confidence
log_decision _ k r = pure tt

abbrev sync_building : Option ℕ → Action (Unit {0})
sync_building none = pure tt
sync_building (some b) = modify (recompute_building_severity b)

-- The writes, once every check has passed.
unfoldable pub apply_transition :
    ℕ → ReportStatus → Option String → Option String → String → Report → Action Report
apply_transition k new_status reason notes analyst report = do
  let tier = tier_after new_status report.reporter_trust_tier
  let report' : Report = record report { status = new_status; reporter_trust_tier = tier }
  save_report k report'
  sync_building report.building_id
  attach_notes k analyst notes
  write_audit_log "report.status_change" analyst k
      (some (state_of report.status report.reporter_trust_tier))
      (state_of new_status tier ++ (reason_field reason ++ notes_field notes))
  log_decision new_status k report'
  pure report'

unfoldable pub transition_report_status :
    ℕ → ReportStatus → Option String → Option String → String → Action Report
transition_report_status k new_status reason notes analyst = do
  require (is_target new_status) invalid_target
  check_reason new_status reason
  report ← find_report k
  require (is_allowed new_status report.status) invalid_transition
  apply_transition k new_status reason notes analyst report
