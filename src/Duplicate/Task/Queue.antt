-- ===== src/Duplicate/Task/Queue.antt =====
-- When scoring queues a report for a merge review, and what it records.
use mathlib.Core.List.{Mem}
use matata_backend.Common.{
  ℕ, ℤ, ◌≡◌, ◌≢◌, refl, sym, ap, ◌∙◌, Bool, true, false, Option, none, some, List, [], ◌∷◌, arith,
  Bool-cases, inl, inr,
}
use matata_backend.Common.Lists.{All}
use matata_backend.Common.Table.{find, find-put_self}
use matata_backend.Models.{ReportStatus, Report, Database, status_eq}
use matata_backend.Duplicate.Scorer.{
  DuplicateAction, CandidateReport, ScoredCandidate, DuplicateResult, score,
}
use matata_backend.Duplicate.Scorer.Merge.{Within}
use matata_backend.Duplicate.Scorer.Outcome.{auto_merge_of}
use matata_backend.Duplicate.Candidates.{load_candidates, eligible, candidate_of}
use matata_backend.Duplicate.Candidates.Eligible.{FromRow, load_candidates-All}
use matata_backend.Duplicate.Task.{
  TaskResult, decided, already_actioned, apply_action, apply_pending_merge_review, score_pending,
  score_report, incoming_of,
}

eligible-ne :
    (window k now : ℕ) (x : ℕ × Report)
    → eligible window k now x ≡ true
    → (x.0 ≢ k) × (x.1.status ≢ ReportStatus.duplicate)
unfolding eligible
eligible-ne window k now x h = ground arith

decided-injective : (a b : DuplicateAction) → decided a ≡ decided b → a ≡ b
decided-injective a b e = cc

apply_action-action :
    (k : ℕ) (r : Report) (result : DuplicateResult) (a : DuplicateAction)
    (best : Option ScoredCandidate) (db : Database)
    → (apply_action k r result a best db).0.action ≡ decided result.action
unfolding apply_action
apply_action-action k r result a best db = ground arith

module _ (distance : ℤ → ℤ → ℤ → ℤ → ℕ) (near : ℤ → ℤ → ℤ → ℤ → Bool) (window : ℕ) where
  -- The other report `x` that the report `k` may be a duplicate of, and the row that says so.
  abbrev pub Queued : ℕ → Report → Database → TaskResult × Database → Type 0
  Queued k r db (result, db') =
      (x : ℕ × Report) × Mem x db.reports
      × (x.0 ≢ k)
      × (x.1.status ≢ ReportStatus.duplicate)
      × ((b : ℕ) × (r.building_id ≡ some b) × (x.1.building_id ≡ some b))
      × Within distance 333335 (incoming_of r) (candidate_of x)
      × (result.primary_id ≡ some x.0)
      × (find k db'.reports
          ≡ some (record r {
            status = ReportStatus.pending_merge_review;
            possible_duplicate_of_id = some x.0;
            duplicate_score = some result.best_score;
          }))

  score_pending-auto_merge :
      (k : ℕ) (r : Report) (cs : List CandidateReport) (db : Database)
      → find k db.reports ≡ some r
      → All (FromRow window k r.created_at db.reports) cs
      → (score_pending distance near window k r cs db).0.action ≡ decided DuplicateAction.auto_merge
      → Queued k r db (score_pending distance near window k r cs db)
  unfolding score_pending
  score_pending-auto_merge k r [] db found all e = absurd (ground arith)
  score_pending-auto_merge k r (c ∷ cs) db found all e =
      let result : DuplicateResult = score distance (incoming_of r) (c ∷ cs) in
      let auto : result.action ≡ DuplicateAction.auto_merge =
        decided-injective _ _
          (sym (apply_action-action k r result result.action result.best_candidate db) ∙ e) in
      let (s, best, (x, m, ok, row), (b, here, there), close) =
        auto_merge_of distance (incoming_of r) (FromRow window k r.created_at db.reports) (c ∷ cs)
          all auto in
      let (other, live) = eligible-ne window k r.created_at x ok in
      let id : s.candidate.id ≡ x.0 = (unfold candidate_of in ap CandidateReport.id row) in
      rw (auto, best)
        (
          x,
          m,
          other,
          live,
          (b, here, unfold candidate_of in (ap CandidateReport.building_id (sym row) ∙ there)),
          rw (← row) close,
          unfold apply_action in ap some id,
          unfold apply_action apply_pending_merge_review in
              (find-put_self k _ r db.reports found
                ∙ ap {B = Option Report}
                    (λ i. some (record r {
                      status = ReportStatus.pending_merge_review;
                      possible_duplicate_of_id = some i;
                      duplicate_score = some result.best_score;
                    }))
                    id),
        )

  score_report_settled :
      (violates : Bool) (k : ℕ) (db : Database) (r : Report)
      → find k db.reports ≡ some r
      → r.status ≢ ReportStatus.pending
      → score_report distance near window violates k db
        ≡ (record { action = already_actioned; best_score = 0; primary_id = none }, db)
  unfolding score_report
  score_report_settled violates k db r found settled = ground arith

  -- Scoring queues a report for a merge review only if it is pending and there is another report at
  -- the same building, at most 16.67 m away, that is not a duplicate itself; it then records that
  -- report as the possible primary, with the score.
  pub score_report-queues :
      (violates : Bool) (k : ℕ) (db : Database) (r : Report)
      → find k db.reports ≡ some r
      → (score_report distance near window violates k db).0.action
        ≡ decided DuplicateAction.auto_merge
      → (r.status ≡ ReportStatus.pending)
        × Queued k r db (score_report distance near window violates k db)
  unfolding score_report
  score_report-queues true k db r found e = absurd (ground (arith, found, e))
  score_report-queues false k db r found e =
      elim (Bool-cases (status_eq r.status ReportStatus.pending)) [
        | inl s ↦
            let cs : List CandidateReport = load_candidates near window k r db.reports in
            let same : score_report distance near window false k db
                ≡ score_pending distance near window k r cs db =
              rw (found, score_report, s) refl in
            (
              ground arith,
              rw same (
                  score_pending-auto_merge k r cs db found
                    (load_candidates-All near window k r db.reports) (rw (← same) e)),
            )
        | inr s ↦ absurd (ground arith)
      ]

  -- A report is queued once: when scoring has queued it, scoring it again answers that it is already
  -- actioned and writes nothing.
  score_report_once :
      (violates : Bool) (k : ℕ) (db : Database) (r : Report)
      → find k db.reports ≡ some r
      → (score_report distance near window violates k db).0.action
        ≡ decided DuplicateAction.auto_merge
      → let db' = (score_report distance near window violates k db).1 in
        score_report distance near window violates k db'
        ≡ (record { action = already_actioned; best_score = 0; primary_id = none }, db')
  score_report_once violates k db r found e =
      let (pending, (x, m, other, live, place, close, named, row)) =
        score_report-queues violates k db r found e in
      score_report_settled violates k (score_report distance near window violates k db).1 _ row
        (ground arith)
