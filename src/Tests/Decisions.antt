-- ===== src/Tests/Decisions.antt =====
-- Runs of the analysts' operations.
use matata_backend.Common.{
  ℕ, ◌≡◌, ◌↔◌, refl, none, some, ◌∷◌, ◌++◌, ok, err, ◌==◌, if◌then◌else◌, arith,
}
use matata_backend.Common.Table.{find}
use matata_backend.Models.{ReportStatus, DamageSeverity, Report}
use matata_backend.Analyst.Monad.{invalid_transition, not_pending_merge}
use matata_backend.Analyst.Severity.{at_building, worst, worst_from, worst_step}
use matata_backend.Analyst.Severity.Worst.{IsWorst, worst-IsWorst}
use matata_backend.Analyst.Transition.{transition_report_status, apply_transition}
use matata_backend.Analyst.Transition.Accept.{Permitted, ReasonGiven, transition_accepts}
use matata_backend.Analyst.Transition.Effect.{
  attached, showing, moved, entry, decisions, transition_effect,
}
use matata_backend.Analyst.Merge.{confirm_pending_merge, reject_pending_merge}
use matata_backend.Lifecycle.MergeReview.{MergedInto, confirm_total, review_once}
use matata_backend.Tests.Data.{pending_report, queued_report, small_database, small_database-RowOk}

transition_accepts_example :
    ((r : Report) × ((transition_report_status 1 ReportStatus.rejected
          (some "poor_quality")
          none
          "a"
          small_database).0
        ≡ ok r))
    ↔ (Permitted ReportStatus.pending ReportStatus.rejected
        × ReasonGiven ReportStatus.rejected (some "poor_quality"))
unfolding find
transition_accepts_example =
    transition_accepts 1 ReportStatus.rejected (some "poor_quality") none "a" small_database
      pending_report refl

verified_done :
    (transition_report_status 1 ReportStatus.verified none (some "seen") "a" small_database).0
    ≡ ok (moved ReportStatus.verified pending_report)
unfolding transition_report_status apply_transition find
verified_done = ground arith

transition_effect_example :
    let db' =
      (transition_report_status 1 ReportStatus.verified none (some "seen") "a" small_database).1 in
    (moved ReportStatus.verified pending_report ≡ moved ReportStatus.verified pending_report)
    × ((j : ℕ)
        → find j db'.reports ≡ (
            if j == 1
            then some (moved ReportStatus.verified pending_report)
            else find j small_database.reports))
    × ((b : ℕ)
        → find b db'.buildings ≡ (
            if at_building b pending_report
            then showing (worst b db'.reports) (find b small_database.buildings)
            else find b small_database.buildings))
    × (db'.notes ≡ attached 1 "a" (some "seen") ++ small_database.notes)
    × (db'.audit
        ≡ entry 1 ReportStatus.verified none (some "seen") "a" pending_report
          ∷ small_database.audit)
    × (db'.feedback ≡ decisions 1 ReportStatus.verified pending_report ++ small_database.feedback)
unfolding find
transition_effect_example =
    transition_effect 1 ReportStatus.verified none (some "seen") "a" small_database pending_report
      (moved ReportStatus.verified pending_report) refl verified_done

refused :
    (transition_report_status 4 ReportStatus.verified none none "a" small_database).0
    ≡ err invalid_transition
unfolding transition_report_status apply_transition find
refused = ground arith

worst-IsWorst_example : IsWorst 7 (worst 7 small_database.reports) small_database.reports
worst-IsWorst_example = worst-IsWorst 7 small_database.reports

-- The worst of the four reports is one of partial damage.
worst_run : worst 7 small_database.reports ≡ DamageSeverity.partial
unfolding worst worst_from worst_step
worst_run = refl

confirm_total_example :
    (p : ℕ) × (queued_report.possible_duplicate_of_id ≡ some p)
    × ((confirm_pending_merge 3 "a" small_database).0 ≡ ok p)
    × MergedInto p (find 3 (confirm_pending_merge 3 "a" small_database).1.reports)
unfolding find
confirm_total_example =
    confirm_total 3 "a" small_database queued_report small_database-RowOk refl refl

review_once_example :
    let db1 = (confirm_pending_merge 3 "a" small_database).1 in
    let db2 = (reject_pending_merge 3 "a" small_database).1 in
    (confirm_pending_merge 3 "b" db1 ≡ (err not_pending_merge, db1))
    × (reject_pending_merge 3 "b" db1 ≡ (err not_pending_merge, db1))
    × (confirm_pending_merge 3 "b" db2 ≡ (err not_pending_merge, db2))
    × (reject_pending_merge 3 "b" db2 ≡ (err not_pending_merge, db2))
unfolding find
review_once_example =
    review_once 3 "a" "b" small_database queued_report small_database-RowOk refl refl
