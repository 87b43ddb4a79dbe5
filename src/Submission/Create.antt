-- ===== src/Submission/Create.antt =====
-- A new report: `create_report` of app/services/submission_service.py, and `submit_report` of
-- app/api/v1/routes/reports.py, which commits it and sends its jobs. The identifiers and the clock are
-- arguments; an identifier is random, and one that is taken, which the database refuses, is not modelled.
pub mod Stored
pub mod Rows
use matata_backend.Common.{
  ℕ, ℤ, String, Bool, true, false, Option, none, some, List, [], ◌∷◌, ◌++◌, Result, ok, err, truthy,
  if◌then◌else◌,
}
use matata_backend.Common.Table.{Table}
use matata_backend.Models.{
  CrisisType, InfrastructureType, ReportDamageSeverity, MedicalHelpNeeded, PhotoStatus,
  ReportStatus, ReviewPriority, Report, Json, Database, crisis_value, infrastructure_value,
  severity_value,
}
use matata_backend.Analyst.Monad.{
  rate_limit_exceeded, Action, pure, ◌>>=◌, ◌>>◌, require, modify, write_audit_log,
}
use matata_backend.Analyst.Review.{sanitise_text}
use matata_backend.Ai.Priority.{needs_urgent_help}
use matata_backend.FieldReporters.{FieldReporter, code_for_subject}
use matata_backend.Submission.Limit.{Counters, check_rate_limit}
use matata_backend.Submission.Photo.{Image, PhotoServices, upload, check_photo, photo_request}
use matata_backend.Reconciliation.{Command, seed, match_building, process_report_image}

-- The fields of the form that are in the model.
pub record Submission : Type 0 where
  pub crisis_type : CrisisType
  pub infrastructure_type : InfrastructureType
  pub damage_severity : ReportDamageSeverity
  pub lat : Option ℤ
  pub lng : Option ℤ
  pub gps_accuracy : Option ℕ
  pub landmark_description : Option String
  pub medical_help_needed : Option MedicalHelpNeeded
  pub confirmed_building_id : Option ℕ
  pub building_not_on_map : Bool
  pub image : Image
  pub trust_tier : ℕ

-- The priority that a new report starts with.
abbrev first_priority : Option MedicalHelpNeeded → ReviewPriority
first_priority help =
    if needs_urgent_help help then ReviewPriority.critical else ReviewPriority.normal

-- `photo_status.value` of a new report.
abbrev pub photo_value : Option String → String
photo_value none = "pending"
photo_value (some url) = "processing"

abbrev first_photo_status : Option String → PhotoStatus
first_photo_status none = PhotoStatus.pending
first_photo_status (some url) = PhotoStatus.processing

-- What the service is configured with.
pub record SubmissionSettings : Type 0 where
  pub hash_token : String → String
  pub strip_dangerous : String → String
  pub clean : String → String
  pub submissions_per_hour : ℕ

module _ (env : SubmissionSettings) (services : PhotoServices)
    (reporters : List FieldReporter) where
  abbrev pub new_report : Submission → String → Option String → ℕ → Report
  new_report s token photo_url now = record {
    reporter_token_hash = env.hash_token token;
    building_id = none;
    crisis_type = s.crisis_type;
    infrastructure_type = s.infrastructure_type;
    damage_severity = s.damage_severity;
    lat = s.lat;
    lng = s.lng;
    photo_url = photo_url;
    photo_status = first_photo_status photo_url;
    photo_phash = none;
    medical_help_needed = s.medical_help_needed;
    field_reporter_code = code_for_subject token reporters;
    reporter_confirmed_building_id = s.confirmed_building_id;
    reporter_building_missing = s.building_not_on_map;
    landmark_description = sanitise_text env.strip_dangerous env.clean s.landmark_description 500;
    gps_accuracy = s.gps_accuracy;
    footprint_match_confidence = none;
    status = ReportStatus.pending;
    reporter_trust_tier = s.trust_tier;
    info_request_message = none;
    info_requested_at = none;
    reporter_followup = none;
    info_responded_at = none;
    ai_severity_prediction = none;
    ai_confidence = none;
    ai_quality_score = none;
    ai_divergence = none;
    review_priority = first_priority s.medical_help_needed;
    analyst_severity_override = none;
    duplicate_of_id = none;
    possible_duplicate_of_id = none;
    duplicate_score = none;
    created_at = now;
  }

  -- Step 4: no photo, or a photo that is moderated before it is stored. The rejection is recorded under
  -- an identifier of its own.
  unfoldable pub store_photo : ℕ → ℕ → Image → String → Action (Option String)
  store_photo k rejection_id [] token db = (ok none, db)
  store_photo k rejection_id (b ∷ image) token db =
      (do
        check_photo env.hash_token services "report.moderation_rejection" token rejection_id
            (b ∷ image)
        url ← upload services k (b ∷ image)
        pure (some url))
        db

  abbrev insert_report : ℕ → Report → Action (Unit {0})
  insert_report k r = modify λ db. record db { reports = db.reports ++ ((k, r) ∷ []) }

  -- Steps 3 to 5. Whether the submission is within the limit is what `_check_rate_limit` found.
  unfoldable pub create_report : ℕ → ℕ → Bool → Submission → String → ℕ → Action Report
  create_report k rejection_id within s token now = do
    require within rate_limit_exceeded
    photo_url ← store_photo k rejection_id s.image token
    let report : Report = new_report s token photo_url now
    insert_report k report
    write_audit_log "report.create" (env.hash_token token) k none (
        ("status", Json.text "pending")
        ∷ ("photo_status", Json.text (photo_value photo_url))
        ∷ ("crisis_type", Json.text (crisis_value s.crisis_type))
        ∷ ("infrastructure_type", Json.text (infrastructure_value s.infrastructure_type))
        ∷ ("damage_severity", Json.text (severity_value s.damage_severity))
        ∷ [])
    pure report

  -- What the route sends after the commit.
  abbrev pub jobs_for : ℕ → Report → List Command
  jobs_for k r =
      if truthy r.photo_url
      then seed k 2 ∷ match_building k ∷ process_report_image k ∷ []
      else seed k 1 ∷ match_building k ∷ []

  -- What is sent, the database and the counters.
  unfoldable pub submit_report :
      ℕ → ℕ → Submission → String → ℕ → Counters → Database → List Command × Database × Counters
  submit_report k rejection_id s token now counters db =
      let (within, counters') =
        check_rate_limit env.submissions_per_hour now (env.hash_token token) counters in
      let (r, db') = photo_request (create_report k rejection_id within s token now) db in
      elim r [ ok report ↦ (jobs_for k report, db', counters') | err e ↦ ([], db', counters') ]
