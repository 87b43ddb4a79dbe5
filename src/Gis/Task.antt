-- ===== src/Gis/Task.antt =====
-- The map task of app/workers/gis_tasks.py: `_match_building_impl`, and `match_building`, which retries
-- it. The caches that it clears are not in the model.
pub mod Rows
pub mod Places
use matata_backend.Common.{ℕ, ℤ, String, Bool, true, false, Option, none, some, if◌then◌else◌}
use matata_backend.Common.Table.{Table, find, put}
use matata_backend.Models.{Report, Building, Database}
use matata_backend.Celery.{RetryOutcome, scheduled, raises_given, raises_max_retries}
use matata_backend.Gis.Match.{
  BuildingMatch, Geometry, GisSettings, Geocoded, confirm_building, match_building, unmatched,
}
use matata_backend.Gis.Severity.{update_building_severity}

-- What may go wrong in an attempt: an `IntegrityError` or another exception before the commit, or an
-- exception after it, as when Redis cannot be reached.
pub data Fault : Type 0 where
  integrity before_commit after_commit : Fault

pub record GisResult : Type 0 where
  pub building_id : Option ℕ
  pub confidence : ℕ
  pub distance_m : Option ℕ

-- An attempt: its result, or `none` if it raised; whether it told the duplicate gate; and the database.
pub record GisRan : Type 0 where
  pub result : Option GisResult
  pub signalled : Bool
  pub database : Database

abbrev no_building : GisResult
no_building = record { building_id = none; confidence = 0; distance_m = none }

abbrev pub result_of : BuildingMatch → GisResult
result_of m = record {
  building_id = m.building_id;
  confidence = m.confidence;
  distance_m = m.distance_m;
}

-- Step 3.
unfoldable pub write_match : ℕ → ℕ → Report → BuildingMatch → Database → Database
write_match now k r m db = elim m.building_id [
  | none ↦ record db {
    reports = put k (record r { footprint_match_confidence = some 0 }) db.reports;
  }
  | some b ↦ update_building_severity b now (record db {
    reports =
        put k (record r { building_id = some b; footprint_match_confidence = some m.confidence })
          db.reports;
  })
]

-- How the attempt ends, with the match that it found.
abbrev pub concluded : ℕ → ℕ → Report → BuildingMatch → Option Fault → Database → GisRan
concluded now k r m none db = record {
  result = some (result_of m);
  signalled = true;
  database = write_match now k r m db;
}
concluded now k r m (some integrity) db = record {
  result = some no_building;
  signalled = true;
  database = db;
}
concluded now k r m (some before_commit) db = record {
  result = none;
  signalled = false;
  database = db;
}
concluded now k r m (some after_commit) db = record {
  result = none;
  signalled = false;
  database = write_match now k r m db;
}

module _ (g : Geometry) (settings : GisSettings) (geocode : Option (String → Geocoded)) where
  -- The reporter's own pick, if there is one and it can be checked.
  unfoldable pub confirmed_match :
      Option ℕ → Option ℤ → Option ℤ → Option ℕ → Table Building → Option BuildingMatch
  confirmed_match (some b) (some lat) (some lng) accuracy_m buildings =
      confirm_building g.distance settings b lat lng accuracy_m buildings
  confirmed_match _ _ _ accuracy_m buildings = none

  -- Step 2: a building that is not on the map, the reporter's pick, or the matching sequence.
  unfoldable pub chosen_match : Report → Table Building → BuildingMatch
  chosen_match r buildings =
      if r.reporter_building_missing
      then unmatched
      else elim (confirmed_match r.reporter_confirmed_building_id r.lat r.lng r.gps_accuracy
          buildings) [
            | some m ↦ m
            | none ↦
                match_building g settings r.lat r.lng r.gps_accuracy r.landmark_description geocode
                  false buildings
          ]

  unfoldable pub match_building_impl : ℕ → ℕ → Option Fault → Database → GisRan
  match_building_impl now k fault db = elim (find k db.reports) [
    | none ↦ record { result = some no_building; signalled = true; database = db }
    | some r ↦ concluded now k r (chosen_match r db.buildings) fault db
  ]

  -- How the Celery task ends: with a result, with a retry, or with the exception.
  unfoldable pub run_match_building :
      (ℕ → ℕ → Bool → RetryOutcome) → ℕ → ℕ → ℕ → Option Fault → Database → GisRan
  run_match_building retry retries now k fault db =
      let ran = match_building_impl now k fault db in
      elim ran.result [
        | some result ↦ ran
        | none ↦ elim (retry retries 3 true) [
          | scheduled ↦ ran
          | raises_given ↦ ran
          | raises_max_retries ↦ record {
            result = some no_building;
            signalled = true;
            database = ran.database;
          }
        ]
      ]
