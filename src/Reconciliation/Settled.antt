-- ===== src/Reconciliation/Settled.antt =====
-- A report that has gone through the pipeline is left alone.
use matata_backend.Common.{
  ℕ, ℤ, ◌≡◌, ◌≢◌, Bool, false, ◌||◌, Option, none, some, List, [], ◌∷◌, Bool-cases, inl, inr, arith,
  ==_refl,
}
use matata_backend.Common.Table.{find, find-put_self}
use matata_backend.Models.{ReportStatus, Report, Database, status_eq}
use matata_backend.Duplicate.Scorer.{
  DuplicateAction, CandidateReport, ScoredCandidate, DuplicateResult,
}
use matata_backend.Duplicate.Candidates.{load_candidates}
use matata_backend.Duplicate.Task.{
  apply_action, apply_pending_merge_review, apply_analyst_flag, write_dedup_scored_audit,
  score_pending, error, score_report,
}
use matata_backend.Reconciliation.{needs_gis, needs_ai, needs_dedup, dedup_done, is_stuck}

-- The report is there, its map and image steps are still done, and it waits for no scoring job: it is no
-- longer pending, or scoring has written its audit row.
abbrev IsScored : ℕ → Database → Option Report → Type 0
IsScored k db o =
    (s : Report) × (o ≡ some s) × ((needs_gis s || needs_ai s) ≡ false) × (needs_dedup k db ≡ false)

apply_action-IsScored :
    (k : ℕ) (r : Report) (result : DuplicateResult) (action : DuplicateAction)
    (best : Option ScoredCandidate) (db : Database)
    → find k db.reports ≡ some r
    → (needs_gis r || needs_ai r) ≡ false
    → let db' = (apply_action k r result action best db).1 in IsScored k db' (find k db'.reports)
unfolding apply_action apply_pending_merge_review apply_analyst_flag write_dedup_scored_audit
    dedup_done
apply_action-IsScored k r result DuplicateAction.auto_merge (some best) db found done =
    (_, find-put_self k _ r db.reports found, done, ground (arith, ==_refl k))
apply_action-IsScored k r result DuplicateAction.analyst_flag (some best) db found done =
    (_, find-put_self k _ r db.reports found, done, ground (arith, ==_refl k))
apply_action-IsScored k r result DuplicateAction.independent best db found done =
    (r, found, done, ground (arith, ==_refl k))
apply_action-IsScored k r result DuplicateAction.auto_merge none db found done =
    (r, found, done, ground (arith, ==_refl k))
apply_action-IsScored k r result DuplicateAction.analyst_flag none db found done =
    (r, found, done, ground (arith, ==_refl k))

scored-quiet :
    (grace_minutes now k : ℕ) (db : Database) (s : Report)
    → (needs_gis s || needs_ai s) ≡ false
    → needs_dedup k db ≡ false
    → is_stuck grace_minutes now db (k, s) ≡ false
unfolding is_stuck
scored-quiet grace_minutes now k db s done scored = ground arith

-- What the sweep sees of a report: a row that it does not drive.
abbrev pub IsLeftAlone : ℕ → ℕ → ℕ → Database → Type 0
IsLeftAlone grace_minutes now k db =
    (s : Report) × (find k db.reports ≡ some s) × (is_stuck grace_minutes now db (k, s) ≡ false)

IsScored-left :
    (grace_minutes now k : ℕ) (db : Database)
    → IsScored k db (find k db.reports)
    → IsLeftAlone grace_minutes now k db
IsScored-left grace_minutes now k db (s, found, done, scored) =
    (s, found, scored-quiet grace_minutes now k db s done scored)

module _ (distance : ℤ → ℤ → ℤ → ℤ → ℕ) (near : ℤ → ℤ → ℤ → ℤ → Bool) (window : ℕ) where
  score_pending-IsScored :
      (k : ℕ) (r : Report) (cs : List CandidateReport) (db : Database)
      → find k db.reports ≡ some r
      → (needs_gis r || needs_ai r) ≡ false
      → let db' = (score_pending distance near window k r cs db).1 in
        IsScored k db' (find k db'.reports)
  unfolding score_pending write_dedup_scored_audit dedup_done
  score_pending-IsScored k r [] db found done = (r, found, done, ground (arith, ==_refl k))
  score_pending-IsScored k r (c ∷ cs) db found done = apply_action-IsScored k r _ _ _ db found done

  -- Once the map and image steps of a report are done and its scoring job has run, with whatever outcome
  -- but the error of a violated constraint, the sweep does not drive it, at any time.
  pub score_report-settles :
      (violates : Bool) (grace_minutes now k : ℕ) (r : Report) (db : Database)
      → find k db.reports ≡ some r
      → (needs_gis r || needs_ai r) ≡ false
      → (score_report distance near window violates k db).0.action ≢ error
      → IsLeftAlone grace_minutes now k (score_report distance near window violates k db).1
  unfolding score_report is_stuck
  score_report-settles violates grace_minutes now k r db found done ran =
      elim (Bool-cases (status_eq r.status ReportStatus.pending)) [
        | inl e ↦ elim (Bool-cases violates) [
          | inl v ↦ absurd (ran (ground (arith, found, e, v)))
          | inr v ↦
              rw (score_report, found, e, v)
                (IsScored-left grace_minutes now k
                  (score_pending distance near window k r
                    (load_candidates near window k r db.reports) db).1
                  (score_pending-IsScored k r _ db found done))
        ]
        | inr e ↦ rw (score_report, found, e) (r, found, ground (arith, e))
      ]
