-- ===== src/Gis/Task/Rows.antt =====
-- What the map task does to the report rows.
use matata_backend.Common.{
  ℕ, ◌≡◌, refl, inl, inr, String, Bool, Option, none, some, Option-cases, arith,
}
use matata_backend.Common.Table.{find}
use matata_backend.Models.{Report, Database}
use matata_backend.Gis.Match.{BuildingMatch, Geometry, GisSettings, Geocoded}
use matata_backend.Gis.Severity.{update_building_severity}
use matata_backend.Celery.{RetryOutcome}
use matata_backend.Lifecycle.Step.{locate, Evolves, Evolves-refl, put-Evolves}
use matata_backend.Gis.Task.{
  run_match_building, Fault, integrity, before_commit, after_commit, write_match, concluded,
  match_building_impl,
}

-- The map task moves its report only.
write_match-Evolves :
    (now k : ℕ) (r : Report) (m : BuildingMatch) (db : Database)
    → find k db.reports ≡ some r
    → Evolves db.reports (write_match now k r m db).reports
unfolding write_match update_building_severity
write_match-Evolves now k r m db found = elim (Option-cases m.building_id) [
  | inl e ↦ rw (write_match, e) (put-Evolves k r _ db.reports found (locate r.building_id 0 refl))
  | inr (b, e) ↦ elim (Option-cases (find b db.buildings)) [
    | inl f ↦
        rw (write_match, e, update_building_severity, f)
          (put-Evolves k r _ db.reports found (locate (some b) m.confidence refl))
    | inr (row, f) ↦
        rw (write_match, e, update_building_severity, f)
          (put-Evolves k r _ db.reports found (locate (some b) m.confidence refl))
  ]
]

concluded-Evolves :
    (now k : ℕ) (r : Report) (m : BuildingMatch) (fault : Option Fault) (db : Database)
    → find k db.reports ≡ some r
    → Evolves db.reports (concluded now k r m fault db).database.reports
concluded-Evolves now k r m none db found = write_match-Evolves now k r m db found
concluded-Evolves now k r m (some integrity) db found = Evolves-refl db.reports
concluded-Evolves now k r m (some before_commit) db found = Evolves-refl db.reports
concluded-Evolves now k r m (some after_commit) db found = write_match-Evolves now k r m db found

pub match_building_impl-Evolves :
    (g : Geometry) (settings : GisSettings) (geocode : Option (String → Geocoded)) (now k : ℕ)
    (fault : Option Fault) (db : Database)
    → Evolves db.reports (match_building_impl g settings geocode now k fault db).database.reports
unfolding match_building_impl
match_building_impl-Evolves g settings geocode now k fault db =
    elim (Option-cases (find k db.reports)) [
      | inl e ↦ rw (match_building_impl, e) (Evolves-refl db.reports)
      | inr (r, e) ↦ rw (match_building_impl, e) (concluded-Evolves now k r _ fault db e)
    ]

-- The wrapper leaves the database of the attempt.
pub run_match_building-database :
    (g : Geometry) (settings : GisSettings) (geocode : Option (String → Geocoded))
    (retry : ℕ → ℕ → Bool → RetryOutcome) (retries now k : ℕ) (fault : Option Fault) (db : Database)
    → (run_match_building g settings geocode retry retries now k fault db).database
      ≡ (match_building_impl g settings geocode now k fault db).database
unfolding run_match_building
run_match_building-database g settings geocode retry retries now k fault db = ground arith
