-- ===== src/Tests/Dashboards.antt =====
-- The dashboards and the figures on the small database.
use mathlib.Core.List.{Perm}
use matata_backend.Common.Order.{sort_by-IsOrderBy}
use matata_backend.Common.{ℕ, ◌≡◌, refl, true, false, none, some, List, [], ◌∷◌, pos, arith}
use matata_backend.Common.Lists.{All, length}
use matata_backend.Common.Sort.{IsSorted, filter, sort_by, insert}
use matata_backend.Models.{ReportStatus, ReportDamageSeverity, Database}
use matata_backend.Ai.Task.{ImageAnalysis, QualityFlag, diverges}
use matata_backend.Analyst.Severity.{worst}
use matata_backend.Analyst.Listing.{
  Row, Filters, SortBy, order_by, list_reports, selected, build_report_filters, in_,
}
use matata_backend.Analyst.Listing.Pages.{order_by-IsOrder, shown, list_reports-pages}
use matata_backend.Analyst.Stats.{get_damaged_buildings}
use matata_backend.Analyst.Stats.Layer.{ShowsBuilding, get_damaged_buildings-ShowsBuilding}
use matata_backend.Analyst.Accuracy.{
  CalibrationStore, AccuracySettings, get_ai_accuracy, recommended,
}
use matata_backend.Analyst.Accuracy.Log.{
  IsExplained, get_ai_accuracy-IsExplained, recommended-diverges,
}
use matata_backend.FieldReporters.{FieldReporter, payment_summary, has_row}
use matata_backend.FieldReporters.Totals.{RowAddsUp, paid_total, is_coded, payment_summary-total}
use matata_backend.Gis.Severity.{queried_severity, queried_severity-worst}
use matata_backend.Gis.Match.{
  BuildingMatch, confirm_building, gps_match, gps_building, point_in_polygon, nearest_neighbour,
  candidates_near, measured, compute_search_radius, shared, apply_probabilities, matched_share,
  with_probabilities, probabilities, shares, sum,
}
use matata_backend.Gis.Match.Confirm.{IsConfirmed, gps_match-confirmable}
use matata_backend.Tests.Data.{
  small_database, small_database-InSync, pending_report, default_thresholds, plane, default_gis,
}

-- The pending and the verified reports.
abbrev open_reports : Filters
open_reports = record {
  crisis_type = [];
  damage_severity = [];
  infrastructure_type = [];
  status = ReportStatus.pending ∷ ReportStatus.verified ∷ [];
  time_from = none;
  time_to = none;
  min_ai_confidence = none;
  review_priority = [];
  ai_divergence_only = false;
  region_geojson = none;
}

list_reports-pages_example :
    let ordered : ℕ → List Row → List Row = λ page. sort_by (order_by SortBy.severity) in
    let pages = shown (λ a b c. true) ordered 2 open_reports 1 small_database in
    Perm pages (selected (λ a b c. true) open_reports small_database)
    × IsSorted (order_by SortBy.severity) pages
    × (length pages
        ≡ (list_reports (λ a b c. true) (ordered 1) open_reports 1 1 small_database).total)
unfolding list_reports filter build_report_filters in_ order_by
list_reports-pages_example =
    list_reports-pages (λ a b c. true) (λ page. sort_by (order_by SortBy.severity)) 2 1 open_reports
      SortBy.severity 1 small_database
      (λ page. sort_by-IsOrderBy (order_by SortBy.severity) (order_by-IsOrder SortBy.severity))
      (ground arith) (omega arith)

get_damaged_buildings-ShowsBuilding_example :
    All
      (ShowsBuilding small_database)
      (get_damaged_buildings (λ a b c. true) (λ b. true) none small_database)
get_damaged_buildings-ShowsBuilding_example =
    get_damaged_buildings-ShowsBuilding (λ a b c. true) (λ b. true) small_database
      small_database-InSync

queried_severity-worst_example :
    queried_severity 7 small_database.reports ≡ worst 7 small_database.reports
queried_severity-worst_example = queried_severity-worst 7 small_database.reports

abbrev fresh_store : CalibrationStore
fresh_store = record { divergence_threshold = none; updated_at = none; history = [] }

abbrev small_sample : AccuracySettings
small_sample = record { min_sample = 1; staleness_days = 30 }

-- An analyst agreed with a confident prediction.
abbrev one_agreement : Database
one_agreement = record small_database {
  feedback =
      record {
        report_id = 2;
        feedback_type = "verify";
        ai_prediction = some "minimal";
        analyst_decision = some "minimal";
        is_agreement = some true;
        ai_confidence = some 900000;
      }
      ∷ [];
}

get_ai_accuracy-IsExplained_example :
    IsExplained (get_ai_accuracy small_sample 6 7000 one_agreement fresh_store).1
get_ai_accuracy-IsExplained_example =
    get_ai_accuracy-IsExplained small_sample 6 7000 one_agreement fresh_store (omega arith)
      (omega arith, tt, refl)

abbrev destroyed_photo : ImageAnalysis
destroyed_photo = record {
  quality_score = 900000;
  quality_flag = QualityFlag.usable;
  ai_severity_prediction = ReportDamageSeverity.destroyed;
  ai_confidence = 950000;
}

recommended-diverges_example :
    diverges default_thresholds (recommended (1, 2)) pending_report destroyed_photo ≡ true
unfolding recommended
recommended-diverges_example =
    recommended-diverges default_thresholds 1 2 9 10 pending_report destroyed_photo (omega arith)
      (omega arith) refl

abbrev paid : List FieldReporter
paid = record { code = "KIB-01"; email_hash = "hash"; is_active = true } ∷ []

payment_summary-total_example :
    let rows = payment_summary (λ a b. true) paid none none small_database.reports in
    All RowAddsUp rows
    × (paid_total rows ≡ length (filter (is_coded none none) small_database.reports))
    × All (λ f. has_row f.code rows ≡ true) paid
payment_summary-total_example =
    payment_summary-total (λ a b. true) paid none none small_database.reports

-- What is shown for a fix at the building.
abbrev shown_match : BuildingMatch
shown_match = record {
  building_id = some 7;
  confidence = 1000000;
  distance_m = some 0;
  candidates = record { building_id = 7; distance_m = 0; probability = 1000000 } ∷ [];
}

gps_match-confirmable_example :
    All
      (λ c. IsConfirmed c.building_id (
        confirm_building plane.distance default_gis c.building_id
          (pos 1000000)
          (pos 2000000)
          none
          small_database.buildings))
      shown_match.candidates
unfolding gps_match gps_building point_in_polygon nearest_neighbour candidates_near sort_by filter
    measured compute_search_radius insert shared apply_probabilities matched_share
    with_probabilities probabilities shares sum
gps_match-confirmable_example =
    gps_match-confirmable plane default_gis (pos 1000000) (pos 2000000) none
      small_database.buildings shown_match refl
