-- ===== src/Tests/Histories.antt =====
-- A history of requests and tasks.
use matata_backend.Common.{arith, true, false, pos, ◌≡◌, refl, none, some, List, [], ◌∷◌}
use matata_backend.Common.Table.{AllRows, find}
use matata_backend.Models.{ReportStatus, ReportDamageSeverity, Report}
use matata_backend.Analyst.Sync.{InSync}
use matata_backend.Ai.Task.{QualityFlag, Answers}
use matata_backend.Common.Sort.{filter, sort_by, insert}
use matata_backend.Gis.Match.{
  match_building, gps_match, gps_building, point_in_polygon, nearest_neighbour, candidates_near,
  measured, shared, apply_probabilities, compute_search_radius,
}
use matata_backend.Gis.Task.{chosen_match, confirmed_match}
use matata_backend.Lifecycle.History.{
  Op, transition, confirm, reject, note, ask, followup, override, score, analyse, locate, photo,
  submit, purge_photos, run,
}
use matata_backend.Lifecycle.Invariant.{RowOk, run-RowOk, run-duplicate}
use matata_backend.Lifecycle.Buildings.{IsTameHistory, run-InSync}
use matata_backend.Tests.Data.{
  form, counters, small_database, duplicate_report, small_database-RowOk, small_database-InSync,
  small_environment,
}

-- The provider sees total destruction, where the reporter saw some.
abbrev clear_photo : Answers
clear_photo = record {
  photo_phash = some (some (1 ∷ 2 ∷ []));
  analysis = some (record {
    quality_score = 900000;
    quality_flag = QualityFlag.usable;
    ai_severity_prediction = ReportDamageSeverity.destroyed;
    ai_confidence = 950000;
  });
}

abbrev history : List Op
history =
    locate 1 0 5500 none
    ∷ analyse 1 0 700000 clear_photo
    ∷ score false 1
    ∷ confirm 3 "a"
    ∷ photo 2 (255 ∷ 216 ∷ []) "owner"
    ∷ purge_photos (λ key. true) (pos 30) 500 false 5000000
    ∷ note 2 "seen" "a"
    ∷ ask 2 "where?" "a" 6000
    ∷ followup 2 "owner" "by the bridge" 6100
    ∷ override 2 ReportDamageSeverity.destroyed "a"
    ∷ transition 2 ReportStatus.rejected (some "poor_quality") none "a"
    ∷ reject 1 "b"
    ∷ transition 1 ReportStatus.verified none none "b"
    ∷ submit 9 10 form "sender" 9000 counters
    ∷ []

history_tame : IsTameHistory small_environment history small_database
unfolding find chosen_match confirmed_match match_building gps_match gps_building point_in_polygon
    nearest_neighbour candidates_near measured filter sort_by insert shared apply_probabilities
    compute_search_radius
history_tame =
    (refl, (tt, (tt, (tt, (tt, (tt, (tt, (tt, (tt, (tt, (tt, (tt, (tt, (tt, tt))))))))))))))

run-RowOk_example : AllRows (λ k r. RowOk r) (run small_environment history small_database).reports
run-RowOk_example =
    run-RowOk small_environment history small_database (ground arith) small_database-RowOk

run-duplicate_example :
    (s : Report) × (find 4 (run small_environment history small_database).reports ≡ some s)
    × (s.status ≡ ReportStatus.duplicate)
unfolding find
run-duplicate_example =
    run-duplicate small_environment history small_database 4 duplicate_report refl refl

run-InSync_example : InSync (run small_environment history small_database)
run-InSync_example =
    run-InSync small_environment history small_database history_tame small_database-InSync
