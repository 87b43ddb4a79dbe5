-- ===== src/Analyst/Stats.antt =====
-- The public figures and the map layers of app/services/analyst_service.py: `get_stats_summary`,
-- `get_heatmap` and `get_damaged_buildings`. A cached answer is an argument, `none` if there is none
-- that parses; what PostGIS answers, and whether a footprint's text parses, are arguments too. The
-- texts of a feature that are only passed on are left out.
pub mod Totals
pub mod Layer
use matata_backend.Common.{
  ℕ, ◌+◌, max, ℤ, String, Bool, true, false, not, ◌&&◌, Option, none, some, List, [], ◌∷◌, leb,
  ◌==◌, if◌then◌else◌,
}
use matata_backend.Common.Lists.{length}
use matata_backend.Common.Sort.{filter, sort_by}
use matata_backend.Common.Table.{Table}
use matata_backend.Models.{
  CrisisType, ReportDamageSeverity, ReportStatus, Report, Building, Database, severity_eq,
  status_eq,
}
use matata_backend.Duplicate.Signals.{crisis_eq}
use matata_backend.Analyst.Severity.{counts_for}
use matata_backend.Analyst.Listing.{Row, in_region}
use matata_backend.Gis.Severity.{severity_case}

-- `Report.status != rejected`
abbrev pub is_live : Row → Bool
is_live x = not (status_eq x.1.status ReportStatus.rejected)

unfoldable pub count_where : (Row → Bool) → Table Report → ℕ
count_where p t = length (filter p t)

abbrev pub with_severity : ReportDamageSeverity → Row → Bool
with_severity s x = is_live x && severity_eq x.1.damage_severity s

abbrev pub with_crisis : CrisisType → Row → Bool
with_crisis c x = is_live x && crisis_eq x.1.crisis_type c

pub record StatsSummary : Type 0 where
  pub total : ℕ
  pub minimal : ℕ
  pub partial : ℕ
  pub destroyed : ℕ
  pub flood : ℕ
  pub earthquake : ℕ
  pub conflict : ℕ
  pub wildfire : ℕ
  pub fire : ℕ
  pub other : ℕ
  pub pending_duplicate_count : ℕ
  pub last_updated : ℕ

abbrev pub stats_of : ℕ → Table Report → StatsSummary
stats_of now t = record {
  total = count_where is_live t;
  minimal = count_where (with_severity ReportDamageSeverity.minimal) t;
  partial = count_where (with_severity ReportDamageSeverity.partial) t;
  destroyed = count_where (with_severity ReportDamageSeverity.destroyed) t;
  flood = count_where (with_crisis CrisisType.flood) t;
  earthquake = count_where (with_crisis CrisisType.earthquake) t;
  conflict = count_where (with_crisis CrisisType.conflict) t;
  wildfire = count_where (with_crisis CrisisType.wildfire) t;
  fire = count_where (with_crisis CrisisType.fire) t;
  other = count_where (with_crisis CrisisType.other) t;
  pending_duplicate_count =
      count_where (λ x. status_eq x.1.status ReportStatus.pending_merge_review) t;
  last_updated = now;
}

-- The answer, and what the cache holds for the next minute.
unfoldable pub get_stats_summary :
    Option StatsSummary → ℕ → Database → StatsSummary × Option StatsSummary
get_stats_summary (some summary) now db = (summary, some summary)
get_stats_summary none now db = (stats_of now db.reports, some (stats_of now db.reports))

pub record HeatPoint : Type 0 where
  pub lng : ℤ
  pub lat : ℤ
  pub weight : ℕ

-- The point of a row with coordinates, weighted by the severity.
abbrev heat_point : Row → List HeatPoint → List HeatPoint
heat_point x rest = elim x.1.lat [
  | none ↦ rest
  | some lat ↦ elim x.1.lng [
    | none ↦ rest
    | some lng ↦ record { lng = lng; lat = lat; weight = severity_case x.1.damage_severity } ∷ rest
  ]
]

unfoldable pub heatmap_of : List Row → List HeatPoint
heatmap_of [] = []
heatmap_of (x ∷ xs) = let rest = heatmap_of xs in heat_point x rest

unfoldable pub get_heatmap :
    Option (List HeatPoint) → Database → List HeatPoint × Option (List HeatPoint)
get_heatmap (some points) db = (points, some points)
get_heatmap none db = let points = heatmap_of (filter is_live db.reports) in (points, some points)

pub record BuildingFeature : Type 0 where
  pub building_id : ℕ
  pub severity : ReportDamageSeverity
  pub report_count : ℕ
  pub last_report_at : ℕ
  pub latest_report_id : ℕ

-- `MAX(CASE … END)`
unfoldable pub max_rank : List Row → ℕ
max_rank [] = 0
max_rank (x ∷ xs) = max (severity_case x.1.damage_severity) (max_rank xs)

-- `_RANK_TO_SEVERITY.get(rank, "minimal")`
abbrev pub rank_to_severity : ℕ → ReportDamageSeverity
rank_to_severity rank =
    if rank == 3
    then ReportDamageSeverity.destroyed
    else if rank == 2
    then ReportDamageSeverity.partial
    else ReportDamageSeverity.minimal

-- `MAX(created_at)`
unfoldable pub max_created_at : List Row → ℕ
max_created_at [] = 0
max_created_at (x ∷ xs) = max x.1.created_at (max_created_at xs)

abbrev pub newest_first : Row → Row → Bool
newest_first x y = leb y.1.created_at x.1.created_at

-- `(ARRAY_AGG(r.id ORDER BY r.created_at DESC))[1]`
abbrev first_id : ℕ → List Row → ℕ
first_id k [] = k
first_id k (x ∷ xs) = x.0

-- The feature of a building whose group is not empty.
abbrev pub feature_of : ℕ → List Row → BuildingFeature
feature_of b rows = record {
  building_id = b;
  severity = rank_to_severity (max_rank rows);
  report_count = length rows;
  last_report_at = max_created_at rows;
  latest_report_id = first_id 0 (sort_by newest_first rows);
}

-- `GROUP BY`, and the footprints that parse.
unfoldable pub features : (ℕ → Bool) → (ℕ → List Row) → Table Building → List BuildingFeature
features parses group [] = []
features parses group ((b, row) ∷ t) =
    let rest = features parses group t in
    elim (group b) [ [] ↦ rest | x ∷ xs ↦ if parses b then feature_of b (x ∷ xs) ∷ rest else rest ]

-- The rows that the join and the `WHERE` leave for a building.
unfoldable pub live_at : (String → ℤ → ℤ → Bool) → Option String → Table Report → ℕ → List Row
live_at st_within region t b =
    filter (λ x. counts_for b x.1 && in_region st_within region x.1.lat x.1.lng) t

unfoldable pub get_damaged_buildings :
    (String → ℤ → ℤ → Bool) → (ℕ → Bool) → Option String → Database → List BuildingFeature
get_damaged_buildings st_within parses region db =
    features parses (live_at st_within region db.reports) db.buildings
