-- ===== src/Tests/Pipeline.antt =====
-- The workers on the small database.
use matata_backend.Common.{◌≤◌, ◌≡◌, refl, true, false, none, some, List, [], ◌∷◌, pos, arith}
use matata_backend.Common.Table.{find}
use matata_backend.Models.{Report, Building, Database}
use matata_backend.Ai.Task.{Answers, run_task, failed}
use matata_backend.Ai.Task.Retries.{gate_calls, KeptAside, run_task-told, run_task-lost}
use matata_backend.Gis.Match.{gps_match, match_building, gps_building, compute_search_radius}
use matata_backend.Gis.Match.Nearest.{IsSnapped, gps_building-IsSnapped}
use matata_backend.Gis.Task.{match_building_impl}
use matata_backend.Gis.Task.Places.{PlacedAt, match_building_impl-pick}
use matata_backend.Gis.Match.Shares.{limit_for, match_building-confidence}
use matata_backend.Duplicate.Task.{score_report}
use matata_backend.Analyst.Severity.{worst}
use matata_backend.Reconciliation.{Command}
use matata_backend.Reconciliation.Settled.{IsLeftAlone, score_report-settles}
use matata_backend.Reconciliation.Seeds.{told}
use matata_backend.Retention.{purge, enabled}
use matata_backend.Retention.Sweep.{IsKept, MayPurge, purge-IsKept}
use matata_backend.Tests.Scoring.{queued}
use matata_backend.Tests.Data.{
  small_database, pending_report, taxicab, in_reach, celery_retry, celery_retry-IsCelery,
  default_thresholds, default_gis, plane,
}

-- The image is there, and the provider fails.
abbrev unanswered : Answers
unanswered = record { photo_phash = some (some (1 ∷ [])); analysis = none }

abbrev four_failures : List Answers
four_failures = unanswered ∷ unanswered ∷ unanswered ∷ unanswered ∷ []

run_task-told_example :
    let task = run_task celery_retry default_thresholds 700000 1 0 four_failures small_database in
    task.1 ≡ gate_calls task.0
run_task-told_example =
    run_task-told celery_retry celery_retry-IsCelery default_thresholds 700000 1 0 four_failures
      small_database

run_task-lost_example :
    let (ended, told, db') =
      run_task celery_retry default_thresholds 700000 1 0 four_failures small_database in
    (ended ≡ failed) × (told ≡ 0) × KeptAside pending_report (find 1 db'.reports)
unfolding find
run_task-lost_example =
    run_task-lost celery_retry celery_retry-IsCelery default_thresholds 700000 1 0 pending_report
      four_failures small_database refl refl (refl, (refl, (refl, (refl, tt)))) (omega arith)
      (omega arith)

gps_building-IsSnapped_example :
    IsSnapped plane default_gis
      (pos 1000000)
      (pos 2000000)
      30000
      small_database.buildings
      (gps_building plane default_gis (pos 1000000) (pos 2000000) none small_database.buildings)
unfolding compute_search_radius
gps_building-IsSnapped_example =
    gps_building-IsSnapped plane default_gis (pos 1000000) (pos 2000000) none
      small_database.buildings

match_building-confidence_example :
    let m =
      match_building plane default_gis
        (some (pos 1000000))
        (some (pos 2000000))
        none
        none
        none
        true
        small_database.buildings in
    m.confidence
    ≤ limit_for
        (gps_match plane default_gis
          (some (pos 1000000))
          (some (pos 2000000))
          none
          true
          small_database.buildings)
        m.building_id
match_building-confidence_example =
    match_building-confidence plane default_gis (some (pos 1000000)) (some (pos 2000000)) none none
      none true small_database.buildings

-- The reporter picked building 7 on the form.
abbrev picked : Database
picked = record small_database {
  reports = (5, record pending_report { reporter_confirmed_building_id = some 7 }) ∷ [];
}

match_building_impl-pick_example :
    let ran = match_building_impl plane default_gis none 6000 5 none picked in
    PlacedAt 7 (find 5 ran.database.reports)
    × ((after : Building) × (find 7 ran.database.buildings ≡ some after)
        × (after.current_severity ≡ worst 7 ran.database.reports))
unfolding find compute_search_radius
match_building_impl-pick_example =
    match_building_impl-pick plane default_gis none 6000 5 7 (pos 1000000) (pos 2000000) _ _ picked
      refl refl refl refl refl refl refl

score_report-settles_example :
    IsLeftAlone 15 9000 1 (score_report taxicab in_reach 172800 false 1 small_database).1
unfolding find
score_report-settles_example =
    score_report-settles taxicab in_reach 172800 false 15 9000 1 pending_report small_database refl
      refl (λ e. absurd (ground (arith, queued, e)))

purge-IsKept_example :
    (s : Report) × (find 1 (purge (λ key. true) (pos 30) 500 false 5000000 small_database.reports).1
      ≡ some s)
    × IsKept
        (MayPurge (λ key. true) (enabled (pos 30)) false 5000000 small_database.reports)
        pending_report
        s
unfolding find
purge-IsKept_example =
    purge-IsKept (λ key. true) (pos 30) 500 false 5000000 1 pending_report small_database.reports
      refl

-- A report that the workers never reached.
abbrev untouched : Database
untouched = record small_database {
  reports = (8, record pending_report { footprint_match_confidence = none }) ∷ [];
}

abbrev map_task : List Command
map_task = Command.seed 8 1 ∷ Command.match_building 8 ∷ []
