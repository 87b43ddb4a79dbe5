-- ===== src/Lifecycle/Buildings.antt =====
-- Histories of requests and tasks, and the severities of the buildings.
use matata_backend.Common.{
  ℕ, ℤ, ◌≡◌, refl, sym, ◌∙◌, String, Bool, Option, none, some, List, [], ◌∷◌, Result-cases,
  Option-cases, Bool-cases, inl, inr, arith,
}
use matata_backend.Common.Table.{find}
use matata_backend.Models.{ReportStatus, ReportDamageSeverity, Report, Database, status_eq}
use matata_backend.Analyst.Monad.{Action, request}
use matata_backend.Analyst.Transition.{transition_report_status}
use matata_backend.Analyst.Merge.{merge_reports, confirm_pending_merge, reject_pending_merge}
use matata_backend.Analyst.Review.{
  create_analyst_note, request_more_info, set_severity_override, sanitise_text,
}
use matata_backend.Analyst.Sync.{InSync, transition-InSync}
use matata_backend.Analyst.Sync.Merges.{
  SameWorst, NoneRejected, worst-put_alike, reject-SameWorst, confirm-SameWorst,
  merge_reports-SameWorst,
}
use matata_backend.Duplicate.Scorer.{
  DuplicateAction, CandidateReport, ScoredCandidate, DuplicateResult,
}
use matata_backend.Duplicate.Task.{
  apply_action, apply_pending_merge_review, apply_analyst_flag, write_dedup_scored_audit,
  score_pending, score_report,
}
use matata_backend.Submission.Followup.{get_own_report, raised_priority, add_reporter_followup}
use matata_backend.Ai.Task.Rows.{process_report_image-IsQuiet}
use matata_backend.Gis.Task.Rows.{run_match_building-database}
use matata_backend.Gis.Task.Places.{StaysPut, match_building_impl-InSync}
use matata_backend.Submission.Photo.Rows.{photo_request-IsQuiet}
use matata_backend.Submission.Create.Rows.{submit-SameWorst}
use matata_backend.Retention.Rows.{purge-IsUnnoticed}
use matata_backend.Lifecycle.History.{
  Op, transition, merge, confirm, reject, note, ask, followup, override, score, analyse, locate,
  photo, submit, purge_photos, Environment, settings_of, apply, run,
}

SameWorst-InSync : (db db' : Database) → SameWorst db db' → InSync db → InSync db'
SameWorst-InSync db db' h sync b row found = sync b row (rw h.0 at found) ∙ sym (h.1 b)

override-SameWorst :
    (k : ℕ) (s : ReportDamageSeverity) (a : String) (db : Database)
    → SameWorst db (set_severity_override k s a db).1
unfolding set_severity_override
override-SameWorst k s a db = elim (Option-cases (find k db.reports)) [
  | inl e ↦ (ground arith, λ b. ground arith)
  | inr (r, e) ↦ (
    ground arith,
    λ b. ground (
      arith,
      worst-put_alike b k r (record r { analyst_severity_override = some s }) db.reports e,
    ),
  )
]

note-SameWorst :
    (k : ℕ) (body a : String) (db : Database) → SameWorst db (create_analyst_note k body a db).1
unfolding create_analyst_note
note-SameWorst k body a db = (ground arith, λ b. ground arith)

ask-SameWorst :
    (strip clean : String → String) (k : ℕ) (message a : String) (now : ℕ) (db : Database)
    → SameWorst db (request_more_info strip clean k message a now db).1
unfolding request_more_info
ask-SameWorst strip clean k message a now db = elim (Option-cases (find k db.reports)) [
  | inl e ↦ (ground arith, λ b. ground arith)
  | inr (r, e) ↦ (
    ground arith,
    λ b. ground (
      arith,
      worst-put_alike b k r
          (record r {
            info_request_message = sanitise_text strip clean (some message) 1000;
            info_requested_at = some now;
            reporter_followup = none;
            info_responded_at = none;
          })
          db.reports e,
    ),
  )
]

followup-SameWorst :
    (hash_token strip clean : String → String) (k : ℕ) (token body : String) (now : ℕ)
    (db : Database)
    → SameWorst db (add_reporter_followup hash_token strip clean k token body now db).1
unfolding add_reporter_followup get_own_report
followup-SameWorst hash_token strip clean k token body now db =
    elim (Option-cases (find k db.reports)) [
      | inl e ↦ (ground arith, λ b. ground arith)
      | inr (r, e) ↦ (
        ground arith,
        λ b. ground (
          arith,
          worst-put_alike b k r
              (record r {
                reporter_followup = sanitise_text strip clean (some body) 2000;
                info_responded_at = some now;
                review_priority = raised_priority r.review_priority;
              })
              db.reports e,
        ),
      )
    ]

apply_action-SameWorst :
    (k : ℕ) (r : Report) (result : DuplicateResult) (action : DuplicateAction)
    (best : Option ScoredCandidate) (db : Database)
    → find k db.reports ≡ some r
    → r.status ≡ ReportStatus.pending
    → SameWorst db (apply_action k r result action best db).1
unfolding apply_action apply_pending_merge_review apply_analyst_flag write_dedup_scored_audit
apply_action-SameWorst k r result DuplicateAction.auto_merge (some best) db found e =
    (refl, λ b. worst-put_alike b k r _ db.reports found (refl, refl, rw e refl))
apply_action-SameWorst k r result DuplicateAction.analyst_flag (some best) db found e =
    (refl, λ b. worst-put_alike b k r _ db.reports found (refl, refl, refl))
apply_action-SameWorst k r result _ _ db found e = (refl, λ b. refl)

module _ (distance : ℤ → ℤ → ℤ → ℤ → ℕ) (near : ℤ → ℤ → ℤ → ℤ → Bool) (window : ℕ) where
  score_pending-SameWorst :
      (k : ℕ) (r : Report) (cs : List CandidateReport) (db : Database)
      → find k db.reports ≡ some r
      → r.status ≡ ReportStatus.pending
      → SameWorst db (score_pending distance near window k r cs db).1
  unfolding score_pending write_dedup_scored_audit
  score_pending-SameWorst k r [] db found e = (refl, λ b. refl)
  score_pending-SameWorst k r (c ∷ cs) db found e = apply_action-SameWorst k r _ _ _ db found e

  score_report-SameWorst :
      (violates : Bool) (k : ℕ) (db : Database)
      → SameWorst db (score_report distance near window violates k db).1
  unfolding score_report
  score_report-SameWorst violates k db = elim (Option-cases (find k db.reports)) [
    | inl e ↦ rw (e, score_report) (refl, λ b. refl)
    | inr (r, e) ↦ elim (Bool-cases (status_eq r.status ReportStatus.pending)) [
      | inl s ↦ elim (Bool-cases violates) [
        | inl v ↦ rw (e, score_report, s, v) (refl, λ b. refl)
        | inr v ↦ rw (e, score_report, s, v) (score_pending-SameWorst k r _ db e (ground arith))
      ]
      | inr s ↦ rw (e, score_report, s) (refl, λ b. refl)
    ]
  ]

request-InSync :
    {A : Type 0} (m : Action A) (db : Database)
    → InSync (m db).1
    → InSync db
    → InSync (request m db).1
request-InSync m db h sync = elim (Result-cases (m db).0) [
  | inl (a, e) ↦ rw (e, request) h
  | inr (x, e) ↦ rw (e, request) sync
]

request-same :
    {A : Type 0} (m : Action A) (db : Database)
    → SameWorst db (m db).1
    → InSync db
    → InSync (request m db).1
request-same m db h sync = request-InSync m db (SameWorst-InSync db (m db).1 h sync) sync

module _ (env : Environment) where
  -- A merge lists no report that is rejected at that time, and the map task moves no report from one
  -- building to another.
  abbrev IsTame : Op → Database → Type 0
  IsTame (merge p ids a) db = NoneRejected ids db
  IsTame (locate k retries now fault) db =
      StaysPut env.geometry env.gis_settings env.geocode db.buildings (find k db.reports)
  IsTame _ db = Unit

  abbrev pub IsTameHistory : List Op → Database → Type 0
  IsTameHistory [] db = Unit
  IsTameHistory (op ∷ ops) db = IsTame op db × IsTameHistory ops (apply env op db)

  apply-InSync : (op : Op) (db : Database) → IsTame op db → InSync db → InSync (apply env op db)
  unfolding apply
  apply-InSync (transition k s reason notes a) db live sync =
      request-InSync (transition_report_status k s reason notes a) db
        (transition-InSync k s reason notes a db sync) sync
  apply-InSync (merge p ids a) db live sync =
      request-same (merge_reports p ids a) db (merge_reports-SameWorst p ids a db live) sync
  apply-InSync (confirm k a) db live sync =
      request-same (confirm_pending_merge k a) db (confirm-SameWorst k a db) sync
  apply-InSync (reject k a) db live sync =
      request-same (reject_pending_merge k a) db (reject-SameWorst k a db) sync
  apply-InSync (note k body a) db live sync =
      request-same (create_analyst_note k body a) db (note-SameWorst k body a db) sync
  apply-InSync (ask k message a now) db live sync =
      request-same (request_more_info env.strip_dangerous env.clean k message a now) db
        (ask-SameWorst env.strip_dangerous env.clean k message a now db) sync
  apply-InSync (followup k token body now) db live sync =
      request-same
        (add_reporter_followup env.hash_token env.strip_dangerous env.clean k token body now) db
        (followup-SameWorst env.hash_token env.strip_dangerous env.clean k token body now db) sync
  apply-InSync (override k s a) db live sync =
      request-same (set_severity_override k s a) db (override-SameWorst k s a db) sync
  apply-InSync (score violates k) db live sync =
      SameWorst-InSync db (apply env (score violates k) db)
        (score_report-SameWorst env.distance env.near env.window violates k db) sync
  apply-InSync (analyse k retries divergence_threshold answers) db live sync =
      SameWorst-InSync db (apply env (analyse k retries divergence_threshold answers) db)
        (process_report_image-IsQuiet env.thresholds divergence_threshold env.retry k retries
          answers db).1
        sync
  apply-InSync (locate k retries now fault) db live sync =
      rw
        (run_match_building-database env.geometry env.gis_settings env.geocode env.retry retries now
          k fault db)
        (match_building_impl-InSync env.geometry env.gis_settings env.geocode now k fault db live
          sync)
  apply-InSync (photo k image token) db live sync =
      SameWorst-InSync db (apply env (photo k image token) db)
        (photo_request-IsQuiet env.hash_token env.photo_services k image token db).1 sync
  apply-InSync (submit k rejection_id s token now counters) db live sync =
      SameWorst-InSync db (apply env (submit k rejection_id s token now counters) db)
        (submit-SameWorst (settings_of env) env.photo_services env.reporters k rejection_id s token
          now counters db)
        sync
  apply-InSync (purge_photos delete_image days limit dry_run now) db live sync = λ b row here.
      sync b row here ∙ sym ((purge-IsUnnoticed delete_image days limit dry_run now db.reports).1 b)

  -- If every building shows the worst severity among its reports that are not rejected, it still does
  -- after any history of requests, submissions among them, and of tasks, whose merges list no rejected
  -- report and whose map tasks move no report from one building to another.
  pub run-InSync :
      (ops : List Op) (db : Database) → IsTameHistory ops db → InSync db → InSync (run env ops db)
  unfolding run
  run-InSync [] db live sync = sync
  run-InSync (op ∷ ops) db live sync =
      run-InSync ops (apply env op db) live.1 (apply-InSync op db live.0 sync)
