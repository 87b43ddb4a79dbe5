-- ===== src/Submission/Create/Stored.antt =====
-- What a submission stores and sends.
use matata_backend.Common.{
  ℕ, ◌≡◌, ◌↔◌, refl, ◌⊎◌, inl, inr, String, true, false, Option, none, some, List, [], ◌∷◌, ◌++◌,
  ok, err, truthy, if◌then◌else◌, Option-cases, Bool-cases, arith,
}
use matata_backend.Models.{
  PhotoStatus, ReportStatus, ReviewPriority, Report, Json, AuditLog, Database, crisis_value,
  infrastructure_value, severity_value,
}
use matata_backend.FieldReporters.{FieldReporter, code_for_subject}
use matata_backend.Ai.Priority.{needs_urgent_help}
use matata_backend.Analyst.Monad.{moderation_rejected, upload_failed}
use matata_backend.Analyst.Review.{sanitise_text}
use matata_backend.Submission.Limit.{Counters, check_rate_limit}
use matata_backend.Submission.Photo.{Image, PhotoServices, upload, check_photo, photo_request}
use matata_backend.Submission.Create.{
  Submission, SubmissionSettings, photo_value, new_report, store_photo, create_report, jobs_for,
  submit_report,
}
use matata_backend.Reconciliation.{Command, seed, match_building, process_report_image}
use matata_backend.Reconciliation.Seeds.{IsSeeded, told}

-- The report holds what the form says, is of the sender and waits in the queue: at no building, with
-- no decision, and as critical if help is needed urgently.
pub record IsReportOf (s : Submission) (token_hash : String) (now : ℕ) (r : Report) : Type 0 where
  pub sender : r.reporter_token_hash ≡ token_hash
  pub crisis : r.crisis_type ≡ s.crisis_type
  pub infrastructure : r.infrastructure_type ≡ s.infrastructure_type
  pub severity : r.damage_severity ≡ s.damage_severity
  pub latitude : r.lat ≡ s.lat
  pub longitude : r.lng ≡ s.lng
  pub accuracy : r.gps_accuracy ≡ s.gps_accuracy
  pub help : r.medical_help_needed ≡ s.medical_help_needed
  pub pick : r.reporter_confirmed_building_id ≡ s.confirmed_building_id
  pub missing : r.reporter_building_missing ≡ s.building_not_on_map
  pub tier : r.reporter_trust_tier ≡ s.trust_tier
  pub submitted : r.created_at ≡ now
  pub status : r.status ≡ ReportStatus.pending
  pub no_building : r.building_id ≡ none
  pub no_match : r.footprint_match_confidence ≡ none
  pub no_primary : r.duplicate_of_id ≡ none
  pub no_possible_primary : r.possible_duplicate_of_id ≡ none
  pub no_override : r.analyst_severity_override ≡ none
  pub urgent :
      (r.review_priority ≡ ReviewPriority.critical)
      ↔ (needs_urgent_help s.medical_help_needed ≡ true)

module _ (env : SubmissionSettings) (services : PhotoServices)
    (reporters : List FieldReporter) where
  -- A photo that was sent and fails the moderation.
  abbrev IsRejected : Image → Type 0
  IsRejected [] = ⊥
  IsRejected (b ∷ image) = (services.moderate (b ∷ image)).passed ≡ false

  -- A photo that was sent and passes the moderation, but cannot be stored.
  abbrev IsNotStored : ℕ → Image → Type 0
  IsNotStored k [] = ⊥
  IsNotStored k (b ∷ image) =
      ((services.moderate (b ∷ image)).passed ≡ true)
      × (services.upload_image k (services.compress (b ∷ image)) ≡ none)

  -- No photo was sent; or it passes the moderation, and the report refers to the object that it is
  -- stored as.
  abbrev HasPhoto : ℕ → Image → Report → Type 0
  HasPhoto k [] r = (r.photo_url ≡ none) × (r.photo_status ≡ PhotoStatus.pending)
  HasPhoto k (b ∷ image) r =
      ((services.moderate (b ∷ image)).passed ≡ true)
      × ((url : String) × (services.upload_image k (services.compress (b ∷ image)) ≡ some url)
          × (r.photo_url ≡ some url))
      × (r.photo_status ≡ PhotoStatus.processing)

  -- The audit row of a rejected photo.
  abbrev rejection : ℕ → Image → String → AuditLog
  rejection rejection_id image token = record {
    operation = "report.moderation_rejection";
    actor_id_hash = env.hash_token token;
    record_id = rejection_id;
    before_state = none;
    after_state =
        ("reason", Json.text "moderation_rejection")
        ∷ ("categories", Json.texts (services.moderate image).categories)
        ∷ [];
  }

  -- The audit row of a new report.
  abbrev creation : ℕ → Submission → String → Option String → AuditLog
  creation k s token photo_url = record {
    operation = "report.create";
    actor_id_hash = env.hash_token token;
    record_id = k;
    before_state = none;
    after_state =
        ("status", Json.text "pending")
        ∷ ("photo_status", Json.text (photo_value photo_url))
        ∷ ("crisis_type", Json.text (crisis_value s.crisis_type))
        ∷ ("infrastructure_type", Json.text (infrastructure_value s.infrastructure_type))
        ∷ ("damage_severity", Json.text (severity_value s.damage_severity))
        ∷ [];
  }

  -- The report is appended, with an audit row; the map task is sent, and the image task if there is a
  -- photo, after the gate is seeded with one step for each.
  abbrev Stores : ℕ → Submission → String → ℕ → Database → List Command → Database → Report → Type 0
  Stores k s token now db jobs db' r =
      (db'.reports ≡ db.reports ++ ((k, r) ∷ []))
      × (db'.buildings ≡ db.buildings)
      × (db'.audit ≡ creation k s token r.photo_url ∷ db.audit)
      × IsReportOf s (env.hash_token token) now r
      × (r.landmark_description
          ≡ sanitise_text env.strip_dangerous env.clean s.landmark_description 500)
      × (r.field_reporter_code ≡ code_for_subject token reporters)
      × HasPhoto k s.image r
      × IsSeeded jobs
      × (jobs ≡ (
          if truthy r.photo_url
          then seed k 2 ∷ match_building k ∷ process_report_image k ∷ []
          else seed k 1 ∷ match_building k ∷ []))

  -- What becomes of a submission.
  abbrev pub Outcome :
      ℕ
      → ℕ
      → Submission
      → String
      → ℕ
      → Counters
      → Database
      → List Command × Database × Counters
      → Type 0
  Outcome k rejection_id s token now counters db (jobs, db', counters') =
      let (within, after) =
        check_rate_limit env.submissions_per_hour now (env.hash_token token) counters in
      (counters' ≡ after)
      × ((within ≡ false) × (jobs ≡ []) × (db' ≡ db)
          ⊎ (within ≡ true)
            × (IsRejected s.image
                  × (jobs ≡ [])
                  × (db' ≡ record db { audit = rejection rejection_id s.image token ∷ db.audit })
                ⊎ (IsNotStored k s.image × (jobs ≡ []) × (db' ≡ db)
                    ⊎ ((r : Report) × Stores k s token now db jobs db' r))))

  -- What the photo of a submission leads to.
  photo_cases :
      (k rejection_id : ℕ) (image : Image) (token : String) (db : Database)
      → let photo = store_photo env services reporters k rejection_id image token db in
        (IsRejected image
          × (photo ≡ (
            err moderation_rejected,
            record db { audit = rejection rejection_id image token ∷ db.audit },
          )))
        ⊎ ((IsNotStored k image × (photo ≡ (err upload_failed, db)))
            ⊎ ((url : Option String) × (photo ≡ (ok url, db))
                × ((s : Submission) (now : ℕ)
                    → s.image ≡ image
                    → HasPhoto k image (new_report env services reporters s token url now))))
  unfolding store_photo check_photo upload
  photo_cases k rejection_id [] token db = inr (inr (none, refl, λ s now e. (refl, refl)))
  photo_cases k rejection_id (b ∷ image) token db =
      elim (Bool-cases (services.moderate (b ∷ image)).passed) [
        | inr m ↦ inl (m, ground (arith, m))
        | inl m ↦ elim (Option-cases (services.upload_image k (services.compress (b ∷ image)))) [
          | inl u ↦ inr (inl ((m, u), ground (arith, m, u)))
          | inr (url, u) ↦
              inr (inr (some url, ground (arith, m, u), λ s now e. (m, (url, u, refl), refl)))
        ]
      ]

  jobs_for-IsSeeded : (k : ℕ) (r : Report) → IsSeeded (jobs_for env services reporters k r)
  unfolding told
  jobs_for-IsSeeded k r = elim (Bool-cases (truthy r.photo_url)) [
    | inl e ↦ rw (e) (refl, omega arith)
    | inr e ↦ rw (e) (refl, omega arith)
  ]

  new_report-IsReportOf :
      (s : Submission) (token : String) (url : Option String) (now : ℕ)
      → IsReportOf s (env.hash_token token) now (new_report env services reporters s token url now)
  new_report-IsReportOf s token url now = record {
    sender = refl;
    crisis = refl;
    infrastructure = refl;
    severity = refl;
    latitude = refl;
    longitude = refl;
    accuracy = refl;
    help = refl;
    pick = refl;
    missing = refl;
    tier = refl;
    submitted = refl;
    status = refl;
    no_building = refl;
    no_match = refl;
    no_primary = refl;
    no_possible_primary = refl;
    no_override = refl;
    urgent = (λ e. ground (arith, e), λ e. ground (arith, e));
  }

  jobs_sent :
      (k rejection_id : ℕ) (s : Submission) (token : String) (now : ℕ) (counters : Counters)
      (url : Option String) (db : Database)
      → (check_rate_limit env.submissions_per_hour now (env.hash_token token) counters).0 ≡ true
      → store_photo env services reporters k rejection_id s.image token db ≡ (ok url, db)
      → (submit_report env services reporters k rejection_id s token now counters db).0
        ≡ jobs_for env services reporters k (new_report env services reporters s token url now)
  unfolding submit_report create_report photo_request
  jobs_sent k rejection_id s token now counters url db within e = ground (arith, within, e)

  -- What becomes of a submission, with every outcome of the limit, the moderation and the storage. Over
  -- the hourly limit nothing is written. A photo that fails the moderation leaves an audit row, whatever
  -- the storage would have answered. A photo that cannot be stored leaves nothing. Otherwise the report
  -- is appended as the form says, and the map task and the image task of a photo are sent, with a gate
  -- that is seeded with one step for each. No job is sent in the other cases.
  pub submit_report-Outcome :
      (k rejection_id : ℕ) (s : Submission) (token : String) (now : ℕ) (counters : Counters)
      (db : Database)
      → Outcome k rejection_id s token now counters db
          (submit_report env services reporters k rejection_id s token now counters db)
  unfolding submit_report create_report photo_request
  submit_report-Outcome k rejection_id s token now counters db =
      let limit = check_rate_limit env.submissions_per_hour now (env.hash_token token) counters in
      elim (Bool-cases limit.0) [
        | inr over ↦ (ground (arith, over), inl (over, ground (arith, over), ground (arith, over)))
        | inl within ↦ elim (photo_cases k rejection_id s.image token db) [
          | inl (rejected, e) ↦ (
            ground (arith, within, e),
            inr (within, inl (rejected, ground (arith, within, e), ground (arith, within, e))),
          )
          | inr (inl (missing, e)) ↦ (
            ground (arith, within, e),
            inr (within, inr (inl (missing, ground (arith, within, e), ground (arith, within, e)))),
          )
          | inr (inr (url, e, photo)) ↦
              let r = new_report env services reporters s token url now in
              let sent = jobs_sent k rejection_id s token now counters url db within e in
              let out =
                submit_report env services reporters k rejection_id s token now counters db in
              let stores : Stores k s token now db out.0 out.1 r = (
                ground (arith, within, e),
                ground (arith, within, e),
                ground (arith, within, e),
                new_report-IsReportOf s token url now,
                refl,
                refl,
                photo s now refl,
                rw (sent) (jobs_for-IsSeeded k r),
                sent,
              ) in
              (ground (arith, within, e), inr (within, inr (inr (r, stores))))
        ]
      ]
