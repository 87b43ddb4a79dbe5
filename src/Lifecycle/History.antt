-- ===== src/Lifecycle/History.antt =====
-- Any history of requests and of the workers' tasks over the database. A request commits if its call returns
-- and rolls back if it raises.
use matata_backend.Common.{ℕ, ℤ, String, Bool, Option, List, [], ◌∷◌, Result-cases, inl, inr}
use matata_backend.Models.{ReportStatus, ReportDamageSeverity, Report, Database}
use matata_backend.Analyst.Monad.{Action, request}
use matata_backend.Analyst.Transition.{transition_report_status}
use matata_backend.Analyst.Merge.{merge_reports, confirm_pending_merge, reject_pending_merge}
use matata_backend.Analyst.Review.{create_analyst_note, request_more_info, set_severity_override}
use matata_backend.Submission.Followup.{add_reporter_followup}
use matata_backend.Duplicate.Task.{score_report}
use matata_backend.Duplicate.Task.Rows.{score_report-Evolves}
use matata_backend.Celery.{RetryOutcome}
use matata_backend.Ai.Priority.{Thresholds}
use matata_backend.Ai.Task.{Answers, process_report_image}
use matata_backend.Ai.Task.Rows.{process_report_image-IsQuiet}
use matata_backend.Gis.Match.{Geometry, GisSettings, Geocoded}
use matata_backend.Gis.Task.{Fault, run_match_building}
use matata_backend.Gis.Task.Rows.{match_building_impl-Evolves, run_match_building-database}
use matata_backend.Submission.Photo.{Image, PhotoServices, add_photo_to_report, photo_request}
use matata_backend.Submission.Photo.Rows.{photo_request-IsQuiet}
use matata_backend.FieldReporters.{FieldReporter}
use matata_backend.Submission.Limit.{Counters}
use matata_backend.Submission.Create.{Submission, SubmissionSettings, submit_report}
use matata_backend.Submission.Create.Stored.{IsReportOf}
use matata_backend.Submission.Create.Rows.{submit-Grows}
use matata_backend.Retention.{purge}
use matata_backend.Retention.Rows.{purge-IsUnnoticed}
use matata_backend.Lifecycle.Step.{Evolves, Evolves-refl}
use matata_backend.Lifecycle.Growth.{Grows, Grows-refl, Grows-trans, Evolves-Grows}
use matata_backend.Lifecycle.Calls.{
  CallEvolves, transition-Evolves, reject-Evolves, override-Evolves, note-Evolves, ask-Evolves,
  followup-Evolves,
}
use matata_backend.Lifecycle.Merges.{confirm-Evolves, merge_reports-Evolves}

-- What may be asked of the database, with the arguments of each call.
pub data Op : Type 0 where
  transition : ℕ → ReportStatus → Option String → Option String → String → Op
  merge : ℕ → List ℕ → String → Op
  confirm : ℕ → String → Op
  reject : ℕ → String → Op
  note : ℕ → String → String → Op
  ask : ℕ → String → String → ℕ → Op
  followup : ℕ → String → String → ℕ → Op
  override : ℕ → ReportDamageSeverity → String → Op
  score : Bool → ℕ → Op
  analyse : ℕ → ℕ → ℕ → Answers → Op
  locate : ℕ → ℕ → ℕ → Option Fault → Op
  photo : ℕ → Image → String → Op
  submit : ℕ → ℕ → Submission → String → ℕ → Counters → Op
  purge_photos : (String → Bool) → ℤ → ℕ → Bool → ℕ → Op

-- The parts of the environment that the operations use.
pub record Environment : Type 0 where
  pub hash_token : String → String
  pub strip_dangerous : String → String
  pub clean : String → String
  pub distance : ℤ → ℤ → ℤ → ℤ → ℕ
  pub near : ℤ → ℤ → ℤ → ℤ → Bool
  pub window : ℕ
  pub retry : ℕ → ℕ → Bool → RetryOutcome
  pub thresholds : Thresholds
  pub geometry : Geometry
  pub gis_settings : GisSettings
  pub geocode : Option (String → Geocoded)
  pub photo_services : PhotoServices
  pub submissions_per_hour : ℕ
  pub reporters : List FieldReporter

-- What a submission uses of it.
abbrev pub settings_of : Environment → SubmissionSettings
settings_of env = record {
  hash_token = env.hash_token;
  strip_dangerous = env.strip_dangerous;
  clean = env.clean;
  submissions_per_hour = env.submissions_per_hour;
}

module _ (env : Environment) where
  unfoldable pub apply : Op → Database → Database
  apply (transition k s reason notes a) db =
      (request (transition_report_status k s reason notes a) db).1
  apply (merge p ids a) db = (request (merge_reports p ids a) db).1
  apply (confirm k a) db = (request (confirm_pending_merge k a) db).1
  apply (reject k a) db = (request (reject_pending_merge k a) db).1
  apply (note k body a) db = (request (create_analyst_note k body a) db).1
  apply (ask k message a now) db =
      (request (request_more_info env.strip_dangerous env.clean k message a now) db).1
  apply (followup k token body now) db =
      (request (add_reporter_followup env.hash_token env.strip_dangerous env.clean k token body now)
        db).1
  apply (override k s a) db = (request (set_severity_override k s a) db).1
  apply (score violates k) db = (score_report env.distance env.near env.window violates k db).1
  apply (analyse k retries divergence_threshold answers) db =
      (process_report_image env.retry env.thresholds divergence_threshold k retries answers db).2
  apply (locate k retries now fault) db =
      (run_match_building env.geometry env.gis_settings env.geocode env.retry retries now k fault
        db).database
  apply (photo k image token) db =
      (photo_request (add_photo_to_report env.hash_token env.photo_services k image token) db).1
  apply (submit k rejection_id s token now counters) db =
      (submit_report (settings_of env) env.photo_services env.reporters k rejection_id s token now
        counters db).1
  apply (purge_photos delete_image days limit dry_run now) db = record db {
    reports = (purge delete_image days limit dry_run now db.reports).1;
  }

  unfoldable pub run : List Op → Database → Database
  run [] db = db
  run (op ∷ ops) db = run ops (apply op db)

request-Evolves :
    {A : Type 0} (m : Action A) (db : Database)
    → CallEvolves m db
    → Evolves db.reports (request m db).1.reports
request-Evolves m db h = elim (Result-cases (m db).0) [
  | inl (a, e) ↦ rw (e, request) h
  | inr (x, e) ↦ rw (e, request) (Evolves-refl db.reports)
]

module _ (env : Environment) where
  -- An operation that submits no report.
  abbrev SubmitsNone : Op → Type 0
  SubmitsNone (submit k rejection_id s token now counters) = ⊥
  SubmitsNone _ = Unit

  apply-Evolves :
      (op : Op) (db : Database) → SubmitsNone op → Evolves db.reports (apply env op db).reports
  unfolding apply
  apply-Evolves (transition k s reason notes a) db h =
      request-Evolves (transition_report_status k s reason notes a) db
        (transition-Evolves k s reason notes a db)
  apply-Evolves (merge p ids a) db h =
      request-Evolves (merge_reports p ids a) db (merge_reports-Evolves p ids a db)
  apply-Evolves (confirm k a) db h =
      request-Evolves (confirm_pending_merge k a) db (confirm-Evolves k a db)
  apply-Evolves (reject k a) db h =
      request-Evolves (reject_pending_merge k a) db (reject-Evolves k a db)
  apply-Evolves (note k body a) db h =
      request-Evolves (create_analyst_note k body a) db (note-Evolves k body a db)
  apply-Evolves (ask k message a now) db h =
      request-Evolves (request_more_info env.strip_dangerous env.clean k message a now) db
        (ask-Evolves env.strip_dangerous env.clean k message a now db)
  apply-Evolves (followup k token body now) db h =
      request-Evolves
        (add_reporter_followup env.hash_token env.strip_dangerous env.clean k token body now) db
        (followup-Evolves env.hash_token env.strip_dangerous env.clean k token body now db)
  apply-Evolves (override k s a) db h =
      request-Evolves (set_severity_override k s a) db (override-Evolves k s a db)
  apply-Evolves (score violates k) db h =
      score_report-Evolves env.distance env.near env.window violates k db
  apply-Evolves (analyse k retries divergence_threshold answers) db h =
      (process_report_image-IsQuiet env.thresholds divergence_threshold env.retry k retries answers
        db).0
  apply-Evolves (locate k retries now fault) db h =
      rw
        (run_match_building-database env.geometry env.gis_settings env.geocode env.retry retries now
          k fault db)
        (match_building_impl-Evolves env.geometry env.gis_settings env.geocode now k fault db)
  apply-Evolves (photo k image token) db h =
      (photo_request-IsQuiet env.hash_token env.photo_services k image token db).0
  apply-Evolves (purge_photos delete_image days limit dry_run now) db h =
      (purge-IsUnnoticed delete_image days limit dry_run now db.reports).0
  apply-Evolves (submit k rejection_id s token now counters) db h = absurd h

module _ (env : Environment) (New : Report → Type 0) where
  -- A report of the form of a submission is a new report.
  abbrev pub Admits : Op → Type 0
  Admits (submit k rejection_id s token now counters) =
      (r : Report) → IsReportOf s (env.hash_token token) now r → New r
  Admits _ = Unit

  abbrev pub AllAdmit : List Op → Type 0
  AllAdmit [] = Unit
  AllAdmit (op ∷ ops) = Admits op × AllAdmit ops

  grown :
      (op : Op) (db : Database)
      → SubmitsNone env op
      → Grows New db.reports (apply env op db).reports
  grown op db h = Evolves-Grows New db.reports (apply env op db).reports (apply-Evolves env op db h)

  apply-Grows :
      (op : Op) (db : Database) → Admits op → Grows New db.reports (apply env op db).reports
  unfolding apply
  apply-Grows (submit k rejection_id s token now counters) db new =
      submit-Grows (settings_of env) env.photo_services env.reporters k rejection_id s token now
        counters db New new
  apply-Grows (transition k s reason notes a) db new = grown (transition k s reason notes a) db tt
  apply-Grows (merge p ids a) db new = grown (merge p ids a) db tt
  apply-Grows (confirm k a) db new = grown (confirm k a) db tt
  apply-Grows (reject k a) db new = grown (reject k a) db tt
  apply-Grows (note k body a) db new = grown (note k body a) db tt
  apply-Grows (ask k message a now) db new = grown (ask k message a now) db tt
  apply-Grows (followup k token body now) db new = grown (followup k token body now) db tt
  apply-Grows (override k s a) db new = grown (override k s a) db tt
  apply-Grows (score violates k) db new = grown (score violates k) db tt
  apply-Grows (analyse k retries threshold answers) db new =
      grown (analyse k retries threshold answers) db tt
  apply-Grows (locate k retries now fault) db new = grown (locate k retries now fault) db tt
  apply-Grows (photo k image token) db new = grown (photo k image token) db tt
  apply-Grows (purge_photos delete_image days limit dry_run now) db new =
      grown (purge_photos delete_image days limit dry_run now) db tt

  -- Whatever is asked, and in whatever order, no report vanishes, reports appear by submissions only, and
  -- each goes along the steps of its life.
  pub run-Grows :
      (ops : List Op) (db : Database) → AllAdmit ops → Grows New db.reports (run env ops db).reports
  unfolding run
  run-Grows [] db new = Grows-refl New db.reports
  run-Grows (op ∷ ops) db new =
      Grows-trans New db.reports (apply env op db).reports (run env ops (apply env op db)).reports
        (apply-Grows op db new.0) (run-Grows ops (apply env op db) new.1)
