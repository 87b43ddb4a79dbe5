-- ===== src/Analyst/Stats/Layer.antt =====
-- The map layer against the severities that the buildings show.
use matata_backend.Common.{
  ℕ, ◌≤◌, ℤ, ◌≡◌, ◌≢◌, refl, String, Bool, none, some, List, [], ◌∷◌, Bool-cases, inl, inr, arith,
}
use matata_backend.Common.Lists.{List-cases, All}
use matata_backend.Common.Sort.{filter, sort_by}
use matata_backend.Common.Table.{Table, find, find-All}
use matata_backend.Models.{DamageSeverity, Report, Building, Database}
use matata_backend.Analyst.Severity.{severity_order, damage_to_building_severity}
use matata_backend.Analyst.Sync.{InSync}
use matata_backend.Gis.Severity.{queried_severity, queried-cons, queried_severity-worst}
use matata_backend.Analyst.Listing.{Row}
use matata_backend.Analyst.Stats.{
  BuildingFeature, max_rank, rank_to_severity, feature_of, features, live_at, get_damaged_buildings,
}

-- Without a region the group of a building is the reports that count for it.
max_rank-queried :
    (st_within : String → ℤ → ℤ → Bool) (b : ℕ) (t : Table Report)
    → max_rank (live_at st_within none t b) ≡ severity_order (queried_severity b t)
unfolding max_rank live_at filter queried_severity sort_by
max_rank-queried st_within b [] = refl
max_rank-queried st_within b ((k, r) ∷ t) =
    ground (arith, max_rank-queried st_within b t, queried-cons b k r t)

max_rank-pos : (x : Row) (xs : List Row) → max_rank (x ∷ xs) ≢ 0
unfolding max_rank
max_rank-pos x xs = λ e. absurd (ground (arith, e))

rank-severity :
    (s : DamageSeverity) (rank : ℕ)
    → rank ≡ severity_order s
    → rank ≢ 0
    → damage_to_building_severity (rank_to_severity rank) ≡ s
rank-severity s rank e pos = ground (arith, e, pos)

-- A feature shows what its building shows, and counts at least one report.
abbrev pub ShowsBuilding : Database → BuildingFeature → Type 0
ShowsBuilding db f =
    (row : Building) × (find f.building_id db.buildings ≡ some row)
    × (damage_to_building_severity f.severity ≡ row.current_severity)
    × (1 ≤ f.report_count)

module _ (st_within : String → ℤ → ℤ → Bool) (parses : ℕ → Bool) (db : Database)
    (sync : InSync db) where
  feature-ShowsBuilding :
      (b : ℕ) (row : Building) (x : Row) (xs : List Row)
      → find b db.buildings ≡ some row
      → live_at st_within none db.reports b ≡ x ∷ xs
      → ShowsBuilding db (feature_of b (x ∷ xs))
  feature-ShowsBuilding b row x xs found live = (
    row,
    found,
    rank-severity row.current_severity (max_rank (x ∷ xs))
        (rw (← live, sync b row found, ← queried_severity-worst b db.reports)
          (max_rank-queried st_within b db.reports))
        (max_rank-pos x xs),
    omega arith,
  )

  features-ShowsBuilding :
      (t : Table Building)
      → All (λ x. (row : Building) × (find x.0 db.buildings ≡ some row)) t
      → All (ShowsBuilding db) (features parses (live_at st_within none db.reports) t)
  unfolding features
  features-ShowsBuilding [] h = tt
  features-ShowsBuilding ((b, w) ∷ t) ((row, found), h) =
      let rest = features-ShowsBuilding t h in
      elim (List-cases (live_at st_within none db.reports b)) [
        | inl e ↦ rw (features, e) rest
        | inr (x, xs, e) ↦ elim (Bool-cases (parses b)) [
          | inl p ↦ rw (features, e, p) (feature-ShowsBuilding b row x xs found e, rest)
          | inr p ↦ rw (features, e, p) rest
        ]
      ]

  -- The map layer for the whole area, which is computed from the reports, shows each of its buildings at
  -- the severity that the building's row has, if the rows are in step with the reports; and every
  -- building of the layer has a report that is not rejected.
  pub get_damaged_buildings-ShowsBuilding :
      All (ShowsBuilding db) (get_damaged_buildings st_within parses none db)
  unfolding get_damaged_buildings
  get_damaged_buildings-ShowsBuilding = features-ShowsBuilding db.buildings (find-All db.buildings)
