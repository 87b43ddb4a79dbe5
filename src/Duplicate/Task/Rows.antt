-- ===== src/Duplicate/Task/Rows.antt =====
-- The rows that a scoring job writes.
use matata_backend.Common.{
  ℕ, ℤ, ◌≡◌, refl, Bool, Option, some, List, [], ◌∷◌, arith, Bool-cases, Option-cases, inl, inr,
}
use matata_backend.Common.Table.{find}
use matata_backend.Models.{ReportStatus, Report, Database, status_eq}
use matata_backend.Duplicate.Scorer.{
  DuplicateAction, CandidateReport, ScoredCandidate, DuplicateResult,
}
use matata_backend.Duplicate.Task.{
  apply_action, apply_pending_merge_review, apply_analyst_flag, write_dedup_scored_audit,
  score_pending, score_report,
}
use matata_backend.Lifecycle.Step.{queue, flag, Evolves, Evolves-refl, put-Evolves}

apply_action-Evolves :
    (k : ℕ) (r : Report) (result : DuplicateResult) (action : DuplicateAction)
    (best : Option ScoredCandidate) (db : Database)
    → find k db.reports ≡ some r
    → r.status ≡ ReportStatus.pending
    → Evolves db.reports (apply_action k r result action best db).1.reports
unfolding apply_action apply_pending_merge_review apply_analyst_flag write_dedup_scored_audit
apply_action-Evolves k r result DuplicateAction.auto_merge (some best) db found e =
    put-Evolves k r _ db.reports found (queue best.candidate.id result.best_score e refl)
apply_action-Evolves k r result DuplicateAction.analyst_flag (some best) db found e =
    put-Evolves k r _ db.reports found (flag best.candidate.id result.best_score e refl)
apply_action-Evolves k r result _ _ db found e = Evolves-refl db.reports

module _ (distance : ℤ → ℤ → ℤ → ℤ → ℕ) (near : ℤ → ℤ → ℤ → ℤ → Bool) (window : ℕ) where
  score_pending-Evolves :
      (k : ℕ) (r : Report) (cs : List CandidateReport) (db : Database)
      → find k db.reports ≡ some r
      → r.status ≡ ReportStatus.pending
      → Evolves db.reports (score_pending distance near window k r cs db).1.reports
  unfolding score_pending write_dedup_scored_audit
  score_pending-Evolves k r [] db found e = Evolves-refl db.reports
  score_pending-Evolves k r (c ∷ cs) db found e = apply_action-Evolves k r _ _ _ db found e

  pub score_report-Evolves :
      (violates : Bool) (k : ℕ) (db : Database)
      → Evolves db.reports (score_report distance near window violates k db).1.reports
  unfolding score_report
  score_report-Evolves violates k db = elim (Option-cases (find k db.reports)) [
    | inl e ↦ rw (e, score_report) (Evolves-refl db.reports)
    | inr (r, e) ↦ elim (Bool-cases (status_eq r.status ReportStatus.pending)) [
      | inl s ↦ elim (Bool-cases violates) [
        | inl v ↦ rw (e, score_report, s, v) (Evolves-refl db.reports)
        | inr v ↦ rw (e, score_report, s, v) (score_pending-Evolves k r _ db e (ground arith))
      ]
      | inr s ↦ rw (e, score_report, s) (Evolves-refl db.reports)
    ]
  ]
