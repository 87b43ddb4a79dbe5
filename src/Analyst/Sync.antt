-- ===== src/Analyst/Sync.antt =====
-- `current_severity` of a building against the reports of the building.
pub mod Merges
use matata_backend.Common.{
  ℕ, ◌≡◌, refl, String, Option, none, some, ok, err, true, false, arith, Bool-cases, inl, inr,
  Option-cases, Result-cases, ◌==◌, if◌then◌else◌,
}
use matata_backend.Common.Table.{find, put, find-put, find-put_none}
use matata_backend.Models.{ReportStatus, Report, Building, Database}
use matata_backend.Analyst.Monad.{◌>>=◌}
use matata_backend.Analyst.Severity.{worst, recompute_building_severity, counts_for, at_building}
use matata_backend.Analyst.Severity.Worst.{worst-put}
use matata_backend.Analyst.Transition.{transition_report_status, apply_transition}
use matata_backend.Analyst.Transition.Accept.{transition_refused}
use matata_backend.Analyst.Transition.Effect.{
  transition_found, moved, apply_reports, transition_applies,
}

abbrev pub InSync : Database → Type 0
InSync db =
    (b : ℕ) (row : Building)
    → find b db.buildings ≡ some row
    → row.current_severity ≡ worst b db.reports

-- Recomputing one building keeps the others in step, and brings that one into step.
recompute-InSync :
    (b : ℕ) (db : Database)
    → ((c : ℕ) (row : Building)
        → (c == b) ≡ false
        → find c db.buildings ≡ some row
        → row.current_severity ≡ worst c db.reports)
    → InSync (recompute_building_severity b db)
unfolding recompute_building_severity
recompute-InSync b db others c row found = elim (Option-cases (find b db.buildings)) [
  | inl missing ↦ ground (arith, others c row)
  | inr (w, e) ↦ ground (
    arith,
    others c row,
    find-put c b (record w { current_severity = worst b db.reports }) w db.buildings e,
  )
]

-- A report keeps its building and severity in a transition, and so counts elsewhere as before.
moved_counts :
    (c : ℕ) (s : ReportStatus) (r : Report)
    → at_building c r ≡ false
    → counts_for c (moved s r) ≡ counts_for c r
moved_counts c s r h = ground arith

InSync-same_rows :
    (db db' : Database)
    → db'.buildings ≡ db.buildings
    → db'.reports ≡ db.reports
    → InSync db
    → InSync db'
InSync-same_rows db db' eb er sync b row found = rw er (sync b row (rw eb at found))

-- A changed report leaves a building in step for which it counts as before.
pub put_sync :
    (c k : ℕ) (r r' : Report) (db : Database) (row : Building)
    → find k db.reports ≡ some r
    → counts_for c r' ≡ counts_for c r
    → r'.damage_severity ≡ r.damage_severity
    → InSync db
    → find c db.buildings ≡ some row
    → row.current_severity ≡ worst c (put k r' db.reports)
put_sync c k r r' db row found same d sync here =
    rw (worst-put c k r r' db.reports found same d) (sync c row here)

-- The database after the report and its building are written.
abbrev synced : ℕ → ReportStatus → Report → Option ℕ → Database → Database
synced k s r none db = record db { reports = put k (moved s r) db.reports }
synced k s r (some b) db =
    recompute_building_severity b (record db { reports = put k (moved s r) db.reports })

apply-synced :
    (k : ℕ) (s : ReportStatus) (reason notes : Option String) (a : String) (r : Report)
    (db : Database)
    → let db' = (apply_transition k s reason notes a r db).1 in
      (db'.buildings ≡ (synced k s r r.building_id db).buildings)
      × (db'.reports ≡ (synced k s r r.building_id db).reports)
unfolding apply_transition recompute_building_severity
apply-synced k s reason notes a r db = ground arith

synced-InSync :
    (k : ℕ) (s : ReportStatus) (r : Report) (o : Option ℕ) (db : Database)
    → r.building_id ≡ o
    → find k db.reports ≡ some r
    → InSync db
    → InSync (synced k s r o db)
synced-InSync k s r none db e found sync c row here =
    put_sync c k r (moved s r) db row found (moved_counts c s r (rw e)) refl sync here
synced-InSync k s r (some b) db e found sync c row here =
    recompute-InSync b (record db { reports = put k (moved s r) db.reports })
      (λ c row other here.
        put_sync c k r (moved s r) db row found (moved_counts c s r (ground arith)) refl sync here)
      c row here

-- A status transition, accepted or refused, leaves every building at the worst severity among its
-- reports that are not rejected.
pub transition-InSync :
    (k : ℕ) (s : ReportStatus) (reason notes : Option String) (a : String) (db : Database)
    → InSync db
    → InSync (transition_report_status k s reason notes a db).1
transition-InSync k s reason notes a db sync =
    elim (Result-cases (transition_report_status k s reason notes a db).0) [
      | inl (r', done) ↦
          let (r, found) = transition_found k s reason notes a db r' done in
          let (eb, er) = apply-synced k s reason notes a r db in
          rw (transition_applies k s reason notes a r db found r' done) (
            InSync-same_rows (synced k s r r.building_id db)
              (apply_transition k s reason notes a r db).1 eb er
              (synced-InSync k s r r.building_id db refl found sync))
      | inr (e, refused) ↦ rw (transition_refused k s reason notes a db refused) sync
    ]
