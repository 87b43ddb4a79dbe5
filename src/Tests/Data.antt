-- ===== src/Tests/Data.antt =====
-- A small database: four reports of one building.
use matata_backend.Celery.{RetryOutcome, scheduled, raises_given, raises_max_retries, IsCelery}
use matata_backend.Ai.Priority.{Thresholds}
use matata_backend.Submission.Photo.{PhotoServices}
use matata_backend.Gis.Match.{Geometry, GisSettings}
use matata_backend.Common.{
  true, false, ℕ, ℤ, pos, negsuc, ◌+◌, ◌-◌, ◌*◌, Bool, none, some, [], ◌∷◌, leb, ltb, if◌then◌else◌,
  arith,
}
use matata_backend.Common.Table.{AllRows, find}
use matata_backend.Models.{
  PhotoStatus, DamageSeverity, CrisisType, InfrastructureType, ReportDamageSeverity, ReportStatus,
  ReviewPriority, Report, Database,
}
use matata_backend.Analyst.Severity.{worst, worst_from, worst_step}
use matata_backend.Analyst.Sync.{InSync}
use matata_backend.Submission.Limit.{Counters}
use matata_backend.Submission.Create.{Submission}
use matata_backend.Lifecycle.History.{Environment}
use matata_backend.Lifecycle.Invariant.{RowOk}

abbrev pub pending_report : Report
pending_report = record {
  reporter_token_hash = "owner";
  building_id = some 7;
  crisis_type = CrisisType.flood;
  infrastructure_type = InfrastructureType.residential;
  damage_severity = ReportDamageSeverity.partial;
  lat = some (pos 1000000);
  lng = some (pos 2000000);
  photo_url = some "photo";
  photo_status = PhotoStatus.accepted;
  photo_phash = none;
  medical_help_needed = none;
  field_reporter_code = some "KIB-01";
  reporter_confirmed_building_id = none;
  reporter_building_missing = false;
  landmark_description = none;
  gps_accuracy = none;
  footprint_match_confidence = some 900000;
  status = ReportStatus.pending;
  reporter_trust_tier = 1;
  info_request_message = none;
  info_requested_at = none;
  reporter_followup = none;
  info_responded_at = none;
  ai_severity_prediction = some ReportDamageSeverity.partial;
  ai_confidence = some 800000;
  ai_quality_score = some 900000;
  ai_divergence = some false;
  review_priority = ReviewPriority.normal;
  analyst_severity_override = none;
  duplicate_of_id = none;
  possible_duplicate_of_id = none;
  duplicate_score = none;
  created_at = 5000;
}

abbrev verified_report : Report
verified_report = record pending_report {
  status = ReportStatus.verified;
  damage_severity = ReportDamageSeverity.minimal;
  photo_url = none;
  created_at = 4000;
}

abbrev pub queued_report : Report
queued_report = record pending_report {
  status = ReportStatus.pending_merge_review;
  possible_duplicate_of_id = some 2;
  duplicate_score = some 950000;
}

abbrev pub duplicate_report : Report
duplicate_report = record pending_report {
  status = ReportStatus.duplicate;
  damage_severity = ReportDamageSeverity.minimal;
  duplicate_of_id = some 2;
}

abbrev pub small_database : Database
small_database = record {
  reports =
      (1, pending_report) ∷ (2, verified_report) ∷ (3, queued_report) ∷ (4, duplicate_report) ∷ [];
  buildings = (7, record { current_severity = DamageSeverity.partial; last_report_at = none }) ∷ [];
  notes = [];
  feedback = [];
  notifications = [];
  audit = [];
}

pub small_database-RowOk : AllRows (λ k r. RowOk r) small_database.reports
unfolding find
small_database-RowOk k r e = ground arith

pub small_database-InSync : InSync small_database
unfolding find worst worst_from worst_step
small_database-InSync b row e = ground arith

-- How far apart two coordinates are.
abbrev gap : ℤ → ℤ → ℕ
gap (pos a) (pos b) = a - b + (b - a)
gap (negsuc a) (negsuc b) = a - b + (b - a)
gap (pos a) (negsuc b) = a + b + 1
gap (negsuc a) (pos b) = a + b + 1

-- A distance along the two axes, in millionths of 50 m: a millionth of a degree is about 0.11 m.
abbrev pub taxicab : ℤ → ℤ → ℤ → ℤ → ℕ
taxicab a b c d = (gap a c + gap b d) * 2200

abbrev pub in_reach : ℤ → ℤ → ℤ → ℤ → Bool
in_reach a b c d = leb (taxicab a b c d) 2000000

-- What Celery documents.
abbrev pub celery_retry : ℕ → ℕ → Bool → RetryOutcome
celery_retry retries limit given =
    if ltb retries limit then scheduled else (if given then raises_given else raises_max_retries)

pub celery_retry-IsCelery : IsCelery celery_retry
celery_retry-IsCelery = record {
  below = λ retries limit given h. ground arith;
  exceeded = λ retries limit h. ground arith;
  exceeded_bare = λ retries limit h. ground arith;
}

-- The defaults of app/core/config.py.
abbrev pub default_thresholds : Thresholds
default_thresholds = record {
  quality_critical = 300000;
  confidence_critical = 600000;
  confidence_high_priority = 800000;
}

abbrev pub default_gis : GisSettings
default_gis = record { default_accuracy_m = 15000; search_radius_m = 30000 }

-- Building 7 stands at (1, 2); a likelihood that falls with the distance.
abbrev pub plane : Geometry
plane = record {
  distance = λ b lat lng. taxicab (pos 1000000) (pos 2000000) lat lng;
  contains = λ b lat lng. false;
  hypot = λ a b. a + b;
  likelihood = λ d sigma. 1000000 - d;
}

-- A moderation that lets every photo pass, and a storage that takes it.
abbrev pub lenient : PhotoServices
lenient = record {
  moderate = λ image. record { passed = true; categories = [] };
  compress = λ image. image;
  upload_image = λ k image. some "object";
}

abbrev pub small_environment : Environment
small_environment = record {
  hash_token = λ s. s;
  strip_dangerous = λ s. s;
  clean = λ s. s;
  distance = taxicab;
  near = in_reach;
  window = 172800;
  retry = celery_retry;
  thresholds = default_thresholds;
  geometry = plane;
  gis_settings = default_gis;
  geocode = none;
  photo_services = lenient;
  submissions_per_hour = 10;
  reporters = [];
}

-- A report of a flood with a photo.
abbrev pub form : Submission
form = record {
  crisis_type = CrisisType.flood;
  infrastructure_type = InfrastructureType.residential;
  damage_severity = ReportDamageSeverity.partial;
  lat = some (pos 1000000);
  lng = some (pos 2000000);
  gps_accuracy = some 12000;
  landmark_description = none;
  medical_help_needed = none;
  confirmed_building_id = some 7;
  building_not_on_map = false;
  image = 255 ∷ 216 ∷ [];
  trust_tier = 0;
}

-- One submission was counted in the window that is running.
abbrev pub counters : Counters
counters token_hash = some (record { count = 1; expires_at = some 9500 })
