-- ===== src/Analyst/Listing.antt =====
-- The dashboard's list of reports: `list_reports` of app/services/analyst_service.py, as a query over
-- the table. What PostGIS answers for `ST_Within` is an argument, and so is what the database makes of
-- `ORDER BY` in a query. A page number is at least 1, as the route demands.
pub mod Pages
use matata_backend.Common.{
  ℕ, ℤ, ◌-◌, ◌*◌, String, Bool, true, false, ◌&&◌, ◌||◌, Option, none, some, List, [], ◌∷◌, ltb,
  leb, ◌==◌, truthy, if◌then◌else◌,
}
use matata_backend.Common.Lists.{length}
use matata_backend.Common.Sort.{filter, page_of}
use matata_backend.Models.{
  CrisisType, InfrastructureType, ReportDamageSeverity, ReportStatus, ReviewPriority, Report,
  Database, severity_eq, status_eq, priority_eq,
}
use matata_backend.Duplicate.Signals.{crisis_eq, infra_eq}

abbrev pub Row : Type 0
Row = ℕ × Report

-- `_PRIORITY_ORDER`
abbrev pub priority_order : ReviewPriority → ℕ
priority_order ReviewPriority.critical = 4
priority_order ReviewPriority.high = 3
priority_order ReviewPriority.normal = 2
priority_order ReviewPriority.low = 1

-- `severity_order` of the query.
abbrev pub destroyed_first : ReportDamageSeverity → ℕ
destroyed_first ReportDamageSeverity.destroyed = 3
destroyed_first ReportDamageSeverity.partial = 2
destroyed_first ReportDamageSeverity.minimal = 1

pub record Filters : Type 0 where
  pub crisis_type : List CrisisType
  pub damage_severity : List ReportDamageSeverity
  pub infrastructure_type : List InfrastructureType
  pub status : List ReportStatus
  pub time_from : Option ℕ
  pub time_to : Option ℕ
  pub min_ai_confidence : Option ℕ
  pub review_priority : List ReviewPriority
  pub ai_divergence_only : Bool
  pub region_geojson : Option String

-- `column.in_(values)`
unfoldable pub in_ {ℓ} : {A : Type ℓ} → (A → A → Bool) → List A → A → Bool
in_ same [] x = false
in_ same (v ∷ values) x = let later = in_ same values x in same v x || later

-- `if values: query.where(column.in_(values))`
abbrev one_of {ℓ} : {A : Type ℓ} → (A → A → Bool) → List A → A → Bool
one_of same [] x = true
one_of same (v ∷ values) x = in_ same (v ∷ values) x

abbrev not_before : Option ℕ → ℕ → Bool
not_before none t = true
not_before (some time_from) t = leb time_from t

abbrev not_after : Option ℕ → ℕ → Bool
not_after none t = true
not_after (some time_to) t = leb t time_to

-- A comparison with a missing confidence is not true.
abbrev confident : Option ℕ → Option ℕ → Bool
confident none c = true
confident (some least) none = false
confident (some least) (some c) = leb least c

abbrev diverging : Bool → Option Bool → Bool
diverging false d = true
diverging true (some true) = true
diverging true _ = false

module _ (st_within : String → ℤ → ℤ → Bool) where
  abbrev pub in_region : Option String → Option ℤ → Option ℤ → Bool
  in_region none lat lng = true
  in_region (some String.[]) lat lng = true
  in_region (some region) (some lat) (some lng) = st_within region lat lng
  in_region (some region) _ _ = false

  -- `_build_report_filters`, on a row.
  unfoldable pub build_report_filters : Filters → Report → Bool
  build_report_filters f r =
      one_of crisis_eq f.crisis_type r.crisis_type
      && one_of severity_eq f.damage_severity r.damage_severity
      && one_of infra_eq f.infrastructure_type r.infrastructure_type
      && one_of status_eq f.status r.status
      && not_before f.time_from r.created_at
      && not_after f.time_to r.created_at
      && confident f.min_ai_confidence r.ai_confidence
      && one_of priority_eq f.review_priority r.review_priority
      && diverging f.ai_divergence_only r.ai_divergence
      && in_region f.region_geojson r.lat r.lng

pub data SortBy : Type 0 where
  created_at severity priority : SortBy

-- The higher key first, and the next comparison if the keys are equal.
abbrev pub desc : ℕ → ℕ → Bool → Bool
desc a b next = ltb b a || (a == b) && next

unfoldable pub order_by : SortBy → Row → Row → Bool
order_by SortBy.created_at (i, r) (j, s) = leb s.created_at r.created_at
order_by SortBy.severity (i, r) (j, s) =
    desc (priority_order r.review_priority) (priority_order s.review_priority) (
      desc (destroyed_first r.damage_severity) (destroyed_first s.damage_severity)
        (leb s.created_at r.created_at))
order_by SortBy.priority (i, r) (j, s) =
    desc (priority_order r.review_priority) (priority_order s.review_priority)
      (leb s.created_at r.created_at)

pub record PaginatedReports : Type 0 where
  pub total : ℕ
  pub page : ℕ
  pub limit : ℕ
  pub items : List Row

module _ (st_within : String → ℤ → ℤ → Bool) where
  abbrev pub selected : Filters → Database → List Row
  selected f db = filter (λ (k, r). build_report_filters st_within f r) db.reports

  -- The page of a query, by the order that the database puts the rows of the query in.
  unfoldable pub list_reports :
      (List Row → List Row) → Filters → ℕ → ℕ → Database → PaginatedReports
  list_reports ordered f page limit db = record {
    total = length (selected f db);
    page = page;
    limit = limit;
    items = page_of page limit (ordered (selected f db));
  }
