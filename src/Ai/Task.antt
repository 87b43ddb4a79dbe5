-- ===== src/Ai/Task.antt =====
-- The AI task of app/workers/ai_tasks.py: `_process_report_image_impl`, and `process_report_image`, which
-- retries it. What the object storage, the hash of the image and the vision provider answer in an attempt
-- is an argument, and so is Celery's `Task.retry`. The event for the analysts' dashboards is only
-- recorded as published or not.
pub mod Retries
pub mod Rows
use matata_backend.Common.{
  ℕ, zero, suc, ◌+◌, String, Bool, true, false, not, ◌&&◌, Option, none, some, List, [], ◌∷◌, ltb,
  truthy, if◌then◌else◌, ◌≡◌,
}
use matata_backend.Common.Table.{find, put}
use matata_backend.Models.{
  ReportDamageSeverity, PhotoStatus, NotificationStatus, ReviewPriority, Report, Notification,
  Database, severity_eq,
}
use matata_backend.Ai.Priority.{Thresholds, review_priority}
use matata_backend.Celery.{RetryOutcome, scheduled, raises_given, raises_max_retries}

pub data QualityFlag : Type 0 where
  usable borderline unusable : QualityFlag

-- `ImageAnalysisResult` of app/services/vision_service.py.
pub record ImageAnalysis : Type 0 where
  pub quality_score : ℕ
  pub quality_flag : QualityFlag
  pub ai_severity_prediction : ReportDamageSeverity
  pub ai_confidence : ℕ

-- What the outside services answer in one attempt: the hash of the image if it could be downloaded, and
-- the analysis; `none` is a `VisionAPIError`.
pub record Answers : Type 0 where
  pub photo_phash : Option (Option (List ℕ))
  pub analysis : Option ImageAnalysis

-- The task's result.
pub record AiResult : Type 0 where
  pub photo_status : PhotoStatus
  pub ai_quality_score : Option ℕ
  pub ai_severity_prediction : Option ReportDamageSeverity
  pub ai_confidence : Option ℕ
  pub ai_divergence : Option Bool
  pub photo_phash : Option (List ℕ)
  pub review_priority : Option ReviewPriority

-- An attempt: its result, or `none` if it raised; whether it told the duplicate gate that the step is
-- done, and whether it published an event; and the committed database.
pub record Ran : Type 0 where
  pub result : Option AiResult
  pub signalled : Bool
  pub published : Bool
  pub database : Database

-- There is nothing to analyse.
abbrev skipped_result : AiResult
skipped_result = record {
  photo_status = PhotoStatus.ai_processing_failed;
  ai_quality_score = none;
  ai_severity_prediction = none;
  ai_confidence = none;
  ai_divergence = none;
  photo_phash = none;
  review_priority = none;
}

-- `_get_divergence_threshold`, from what Redis holds and the default.
abbrev get_divergence_threshold : Option ℕ → ℕ → ℕ
get_divergence_threshold none default_threshold = default_threshold
get_divergence_threshold (some t) default_threshold = t

-- The row once the hash is committed.
abbrev pub hashed : Option (List ℕ) → Report → Report
hashed none r = r
hashed (some h) r = record r { photo_phash = some h }

abbrev pub save_row : ℕ → Report → Database → Database
save_row k r db = record db { reports = put k r db.reports }

-- `_publish_photo_request_notification`
abbrev pub publish_photo_request : ℕ → Report → Database → Database
publish_photo_request k r db = record db {
  notifications =
      record {
        kind = "reporter_photo_request";
        recipient_hash = r.reporter_token_hash;
        report_id = some k;
        status = NotificationStatus.pending;
      }
      ∷ db.notifications;
}

module _ (thresholds : Thresholds) (divergence_threshold : ℕ) where
  -- Step 5: the model disagrees with the reporter, and is confident enough to say so.
  abbrev pub diverges : Report → ImageAnalysis → Bool
  diverges r a =
      not (severity_eq a.ai_severity_prediction r.damage_severity)
      && ltb divergence_threshold a.ai_confidence

  -- The row of an unusable image, and of an accepted one.
  abbrev pub unusable_row : Report → ImageAnalysis → Report
  unusable_row r a = record r {
    ai_quality_score = some a.quality_score;
    photo_status = PhotoStatus.insufficient_quality;
    review_priority =
        review_priority thresholds none (some a.quality_score) false r.medical_help_needed
          r.info_responded_at;
  }

  abbrev pub accepted_row : Report → Option (List ℕ) → ImageAnalysis → Report
  accepted_row r phash a = record r {
    ai_quality_score = some a.quality_score;
    ai_severity_prediction = some a.ai_severity_prediction;
    ai_confidence = some a.ai_confidence;
    ai_divergence = some (diverges r a);
    photo_phash = phash;
    photo_status = PhotoStatus.accepted;
    review_priority =
        review_priority thresholds (some a.ai_confidence) (some a.quality_score) (diverges r a)
          r.medical_help_needed r.info_responded_at;
  }

  abbrev pub result_of : Report → AiResult
  result_of r = record {
    photo_status = r.photo_status;
    ai_quality_score = r.ai_quality_score;
    ai_severity_prediction = r.ai_severity_prediction;
    ai_confidence = r.ai_confidence;
    ai_divergence = r.ai_divergence;
    photo_phash = r.photo_phash;
    review_priority = some r.review_priority;
  }

  -- The dictionary that is returned for an unusable image.
  abbrev unusable_result : Report → Option (List ℕ) → ImageAnalysis → AiResult
  unusable_result r phash a = record {
    photo_status = PhotoStatus.insufficient_quality;
    ai_quality_score = some a.quality_score;
    ai_severity_prediction = none;
    ai_confidence = none;
    ai_divergence = none;
    photo_phash = phash;
    review_priority = some (unusable_row r a).review_priority;
  }

  -- Steps 4 to 8, for the analysis of an image.
  unfoldable pub write_analysis :
      ℕ → Report → Option (List ℕ) → ImageAnalysis → QualityFlag → Database → Ran
  write_analysis k r phash a unusable db = record {
    result = some (unusable_result r phash a);
    signalled = true;
    published = false;
    database = publish_photo_request k r (save_row k (unusable_row (hashed phash r) a) db);
  }
  write_analysis k r phash a _ db = record {
    result = some (result_of (accepted_row r phash a));
    signalled = true;
    published = diverges r a;
    database = save_row k (accepted_row r phash a) db;
  }

  -- Steps 2 and 3: the hash is committed before the provider is called.
  unfoldable pub analyse_photo : ℕ → Report → Answers → Database → Ran
  analyse_photo k r answers db = elim answers.photo_phash [
    | none ↦ record { result = none; signalled = false; published = false; database = db }
    | some phash ↦
        let db1 = save_row k (hashed phash r) db in
        elim answers.analysis [
          | none ↦ record { result = none; signalled = false; published = false; database = db1 }
          | some a ↦ write_analysis k r phash a a.quality_flag db1
        ]
  ]

  unfoldable pub process_report_image_impl : ℕ → Answers → Database → Ran
  process_report_image_impl k answers db = elim (find k db.reports) [
    | none ↦ record {
      result = some skipped_result;
      signalled = true;
      published = false;
      database = db;
    }
    | some r ↦ if truthy r.photo_url then analyse_photo k r answers db else record {
      result = some skipped_result;
      signalled = true;
      published = false;
      database = db;
    }
  ]

abbrev pub max_retries : ℕ
max_retries = 3

-- `_RETRY_COUNTDOWNS`
abbrev pub countdown : ℕ → ℕ
countdown zero = 30
countdown (suc zero) = 120
countdown (suc (suc n)) = 600

-- How an attempt of the task ends.
pub data Ended : Type 0 where
  finished : AiResult → Ended
  retried : ℕ → Ended
  failed : Ended

-- The row of a report whose analysis is given up.
abbrev pub given_up : Report → Report
given_up r = record r {
  photo_status = PhotoStatus.ai_processing_failed;
  review_priority = ReviewPriority.critical;
}

abbrev pub give_up : ℕ → Database → Database
give_up k db = elim (find k db.reports) [ none ↦ db | some r ↦ save_row k (given_up r) db ]

-- How often a call that is made under a condition is made.
abbrev pub times : Bool → ℕ
times true = 1
times false = 0

module _ (retry : ℕ → ℕ → Bool → RetryOutcome) (thresholds : Thresholds)
    (divergence_threshold : ℕ) where
  -- The handler of the exceptions of an attempt: how the attempt ends, whether the handler tells the
  -- gate, and the database.
  unfoldable pub handle_failure : ℕ → RetryOutcome → ℕ → Database → Ended × Bool × Database
  handle_failure k scheduled retries db = (retried (countdown retries), false, db)
  handle_failure k raises_given retries db = (failed, false, db)
  handle_failure k raises_max_retries retries db = (
    finished (record skipped_result { review_priority = some ReviewPriority.critical }),
    true,
    give_up k db,
  )

  -- One attempt: how it ends, how often it told the gate, before it raised or after, and the database.
  unfoldable pub process_report_image : ℕ → ℕ → Answers → Database → Ended × ℕ × Database
  process_report_image k retries answers db =
      let ran = process_report_image_impl thresholds divergence_threshold k answers db in
      elim ran.result [
        | some result ↦ (finished result, times ran.signalled, ran.database)
        | none ↦
            let (ended, signalled, db') =
              handle_failure k (retry retries max_retries true) retries ran.database in
            (ended, times ran.signalled + times signalled, db')
      ]

  -- The attempts of a task from a number of retries on, each with the answers that it gets: how the
  -- task ends, how often the gate was told in all of them, and the database. It is still to be retried
  -- if the answers run out.
  unfoldable pub run_task : ℕ → ℕ → List Answers → Database → Ended × ℕ × Database
  run_task k retries [] db = (retried 0, 0, db)
  run_task k retries (answers ∷ more) db =
      let (ended, told, db') = process_report_image k retries answers db in
      elim ended [
        | finished result ↦ (finished result, told, db')
        | retried seconds ↦
            let (end, later, db'') = run_task k (retries + 1) more db' in (end, told + later, db'')
        | failed ↦ (failed, told, db')
      ]
