-- ===== src/Ai/Task/Rows.antt =====
-- What the AI task does to the report rows.
use matata_backend.Common.{
  ℕ, ◌≡◌, refl, Bool, true, Option, none, some, List, Option-cases, Bool-cases, inl, inr, truthy,
}
use matata_backend.Common.Table.{find, find-put_self}
use matata_backend.Models.{Report, Database}
use matata_backend.Celery.{RetryOutcome, scheduled, raises_given, raises_max_retries}
use matata_backend.Ai.Priority.{Thresholds}
use matata_backend.Ai.Task.{
  QualityFlag, ImageAnalysis, Answers, hashed, save_row, unusable_row, given_up, give_up,
  max_retries, write_analysis, analyse_photo, process_report_image_impl, handle_failure,
  process_report_image,
}
use matata_backend.Lifecycle.Step.{analyse}
use matata_backend.Lifecycle.Quiet.{IsQuiet, IsQuiet-refl, IsQuiet-trans, put-IsQuiet}

-- A row that differs in the columns of the task only.
analyse-IsQuiet :
    (k : ℕ) (r r' : Report) (db : Database)
    → find k db.reports ≡ some r
    → r' ≡ record r {
      photo_status = r'.photo_status;
      photo_phash = r'.photo_phash;
      ai_quality_score = r'.ai_quality_score;
      ai_confidence = r'.ai_confidence;
      ai_severity_prediction = r'.ai_severity_prediction;
      ai_divergence = r'.ai_divergence;
      review_priority = r'.review_priority;
    }
    → IsQuiet db (save_row k r' db)
analyse-IsQuiet k r r' db found e =
    put-IsQuiet k r r' db found
      (analyse r'.photo_status r'.photo_phash r'.ai_quality_score r'.ai_confidence
        r'.ai_severity_prediction r'.ai_divergence r'.review_priority e)
      (rw (e) refl, rw (e) refl, rw (e) refl)

hashed-IsQuiet :
    (k : ℕ) (phash : Option (List ℕ)) (r : Report) (db : Database)
    → find k db.reports ≡ some r
    → IsQuiet db (save_row k (hashed phash r) db)
hashed-IsQuiet k none r db found = analyse-IsQuiet k r r db found refl
hashed-IsQuiet k (some h) r db found = analyse-IsQuiet k r (hashed (some h) r) db found refl

give_up-IsQuiet : (k : ℕ) (db : Database) → IsQuiet db (give_up k db)
give_up-IsQuiet k db = elim (Option-cases (find k db.reports)) [
  | inl e ↦ rw (give_up, e) (IsQuiet-refl db)
  | inr (r, e) ↦ rw (give_up, e) (analyse-IsQuiet k r (given_up r) db e refl)
]

module _ (thresholds : Thresholds) (divergence_threshold : ℕ) where
  -- The row in the table has the hash already.
  write-IsQuiet :
      (k : ℕ) (r : Report) (phash : Option (List ℕ)) (a : ImageAnalysis) (flag : QualityFlag)
      (db : Database)
      → find k db.reports ≡ some (hashed phash r)
      → IsQuiet db (write_analysis thresholds divergence_threshold k r phash a flag db).database
  unfolding write_analysis
  write-IsQuiet k r phash a QualityFlag.unusable db found =
      analyse-IsQuiet k (hashed phash r)
        (unusable_row thresholds divergence_threshold (hashed phash r) a) db found refl
  write-IsQuiet k r none a QualityFlag.usable db found = analyse-IsQuiet k r _ db found refl
  write-IsQuiet k r none a QualityFlag.borderline db found = analyse-IsQuiet k r _ db found refl
  write-IsQuiet k r (some h) a QualityFlag.usable db found =
      analyse-IsQuiet k (hashed (some h) r) _ db found refl
  write-IsQuiet k r (some h) a QualityFlag.borderline db found =
      analyse-IsQuiet k (hashed (some h) r) _ db found refl

  analyse_photo-IsQuiet :
      (k : ℕ) (r : Report) (answers : Answers) (db : Database)
      → find k db.reports ≡ some r
      → IsQuiet db (analyse_photo thresholds divergence_threshold k r answers db).database
  unfolding analyse_photo
  analyse_photo-IsQuiet k r answers db found = elim (Option-cases answers.photo_phash) [
    | inl e ↦ rw (analyse_photo, e) (IsQuiet-refl db)
    | inr (phash, e) ↦
        let db1 = save_row k (hashed phash r) db in
        let first = hashed-IsQuiet k phash r db found in
        elim (Option-cases answers.analysis) [
          | inl f ↦ rw (analyse_photo, e, f) first
          | inr (a, f) ↦
              rw (analyse_photo, e, f)
                (IsQuiet-trans db db1
                  (write_analysis thresholds divergence_threshold k r phash a a.quality_flag
                    db1).database
                  first
                  (write-IsQuiet k r phash a a.quality_flag db1
                    (find-put_self k (hashed phash r) r db.reports found)))
        ]
  ]

  impl-IsQuiet :
      (k : ℕ) (answers : Answers) (db : Database)
      → IsQuiet db (process_report_image_impl thresholds divergence_threshold k answers db).database
  unfolding process_report_image_impl
  impl-IsQuiet k answers db = elim (Option-cases (find k db.reports)) [
    | inl e ↦ rw (process_report_image_impl, e) (IsQuiet-refl db)
    | inr (r, e) ↦ elim (Bool-cases (truthy r.photo_url)) [
      | inl t ↦ rw (process_report_image_impl, e, t) (analyse_photo-IsQuiet k r answers db e)
      | inr t ↦ rw (process_report_image_impl, e, t) (IsQuiet-refl db)
    ]
  ]

  -- An attempt of the task writes the columns of the task at most, in every outcome.
  pub process_report_image-IsQuiet :
      (retry : ℕ → ℕ → Bool → RetryOutcome) (k retries : ℕ) (answers : Answers) (db : Database)
      → IsQuiet db
          (process_report_image retry thresholds divergence_threshold k retries answers db).2
  unfolding process_report_image handle_failure
  process_report_image-IsQuiet retry k retries answers db =
      let ran = process_report_image_impl thresholds divergence_threshold k answers db in
      let quiet = impl-IsQuiet k answers db in
      elim (Option-cases ran.result) [
        | inr (result, e) ↦ rw (process_report_image, e) quiet
        | inl e ↦
            rw (process_report_image, e)
              (failure (retry retries max_retries true) ran.database quiet)
      ]
    where
      failure :
          (outcome : RetryOutcome) (db1 : Database)
          → IsQuiet db db1
          → IsQuiet db
              (handle_failure retry thresholds divergence_threshold k outcome retries db1).2
      failure scheduled db1 h = h
      failure raises_given db1 h = h
      failure raises_max_retries db1 h =
          IsQuiet-trans db db1 (give_up k db1) h (give_up-IsQuiet k db1)
