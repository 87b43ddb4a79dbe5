-- ===== src/Models/Rows.antt =====
-- The rows of app/models: report.py, building.py, analyst_note.py, ai_feedback.py, audit_log.py.
-- Identifiers are only compared, so they are numbers, and a row's own id is its key in the table.
-- Coordinates are millionths of a degree, confidences and scores are numbers of millionths, times are seconds. Of a report's
-- columns those are here that a modelled operation reads or writes.
use matata_backend.Common.{ℕ, ℤ, String, Bool, Option, List}
use matata_backend.Common.Table.{Table}
use matata_backend.Models.Enums.{
  DamageSeverity, CrisisType, InfrastructureType, ReportDamageSeverity, ReportStatus,
  MedicalHelpNeeded, PhotoStatus, NotificationStatus, ReviewPriority,
}

pub record Report : Type 0 where
  pub reporter_token_hash : String
  pub building_id : Option ℕ
  pub crisis_type : CrisisType
  pub infrastructure_type : InfrastructureType
  pub damage_severity : ReportDamageSeverity
  pub lat : Option ℤ
  pub lng : Option ℤ
  pub photo_url : Option String
  pub photo_status : PhotoStatus
  pub photo_phash : Option (List ℕ)
  pub medical_help_needed : Option MedicalHelpNeeded
  pub field_reporter_code : Option String
  pub reporter_confirmed_building_id : Option ℕ
  pub reporter_building_missing : Bool
  pub landmark_description : Option String
  pub gps_accuracy : Option ℕ
  pub footprint_match_confidence : Option ℕ
  pub status : ReportStatus
  pub reporter_trust_tier : ℕ
  pub info_request_message : Option String
  pub info_requested_at : Option ℕ
  pub reporter_followup : Option String
  pub info_responded_at : Option ℕ
  pub ai_severity_prediction : Option ReportDamageSeverity
  pub ai_confidence : Option ℕ
  pub ai_quality_score : Option ℕ
  pub ai_divergence : Option Bool
  pub review_priority : ReviewPriority
  pub analyst_severity_override : Option ReportDamageSeverity
  pub duplicate_of_id : Option ℕ
  pub possible_duplicate_of_id : Option ℕ
  pub duplicate_score : Option ℕ
  pub created_at : ℕ

pub record Building : Type 0 where
  pub current_severity : DamageSeverity
  pub last_report_at : Option ℕ

pub record AnalystNote : Type 0 where
  pub report_id : ℕ
  pub analyst_id_hash : String
  pub body : String

pub record AiFeedback : Type 0 where
  pub report_id : ℕ
  pub feedback_type : String
  pub ai_prediction : Option String
  pub analyst_decision : Option String
  pub is_agreement : Option Bool
  pub ai_confidence : Option ℕ

pub record Notification : Type 0 where
  pub kind : String
  pub recipient_hash : String
  pub report_id : Option ℕ
  pub status : NotificationStatus

-- A value of the JSON objects `before_state` and `after_state`.
pub data Json : Type 0 where
  null : Json
  text : String → Json
  num : ℕ → Json
  flag : Bool → Json
  texts : List String → Json

abbrev pub JsonObject : Type 0
JsonObject = List (String × Json)

pub record AuditLog : Type 0 where
  pub operation : String
  pub actor_id_hash : String
  pub record_id : ℕ
  pub before_state : Option JsonObject
  pub after_state : JsonObject

-- What a session reads and writes. The newest row of a log comes first.
pub record Database : Type 0 where
  pub reports : Table Report
  pub buildings : Table Building
  pub notes : List AnalystNote
  pub feedback : List AiFeedback
  pub audit : List AuditLog
  pub notifications : List Notification
