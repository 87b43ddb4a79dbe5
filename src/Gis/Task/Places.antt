-- ===== src/Gis/Task/Places.antt =====
-- What the map task does to the buildings, and where it places the report.
use matata_backend.Common.{
  ℕ, ℤ, ◌≡◌, refl, inl, inr, String, true, false, Option, none, some, [], ◌==◌, leb, Option-cases,
  arith,
}
use matata_backend.Common.Table.{Table, find, put, find-put, find-put_self}
use matata_backend.Models.{Report, Building, Database}
use matata_backend.Analyst.Severity.{worst, counts_for}
use matata_backend.Analyst.Sync.{InSync, put_sync}
use matata_backend.Gis.Match.{
  one, compute_search_radius, confirm_building, BuildingMatch, Geometry, GisSettings, Geocoded,
}
use matata_backend.Gis.Severity.{update_building_severity, queried_severity, queried_severity-worst}
use matata_backend.Gis.Task.{
  Fault, integrity, before_commit, after_commit, chosen_match, write_match, concluded,
  match_building_impl, confirmed_match,
}

-- Recomputing one building by SQL keeps the others in step, and brings that one into step.
update-InSync :
    (b now : ℕ) (db : Database)
    → ((c : ℕ) (row : Building)
        → (c == b) ≡ false
        → find c db.buildings ≡ some row
        → row.current_severity ≡ worst c db.reports)
    → InSync (update_building_severity b now db)
unfolding update_building_severity
update-InSync b now db others c row found = elim (Option-cases (find b db.buildings)) [
  | inl missing ↦ ground (arith, others c row)
  | inr (w, e) ↦ ground (
    arith,
    others c row,
    queried_severity-worst b db.reports,
    find-put c b
        (record w { current_severity = queried_severity b db.reports; last_report_at = some now }) w
        db.buildings e,
  )
]

-- The report is at no building yet, or is at the one that it is matched to, or is matched to none.
abbrev NoMove : Option ℕ → Option ℕ → Type 0
NoMove matched none = Unit
NoMove none (some c) = Unit
NoMove (some b) (some c) = b ≡ c

matched_counts :
    (b c confidence : ℕ) (r : Report) (o : Option ℕ)
    → r.building_id ≡ o
    → NoMove (some b) o
    → (c == b) ≡ false
    → counts_for c (record r { building_id = some b; footprint_match_confidence = some confidence })
      ≡ counts_for c r
matched_counts b c confidence r none e same other = ground arith
matched_counts b c confidence r (some d) e same other = ground arith

write_match-InSync :
    (now k : ℕ) (r : Report) (m : BuildingMatch) (o : Option ℕ) (db : Database)
    → m.building_id ≡ o
    → find k db.reports ≡ some r
    → NoMove o r.building_id
    → InSync db
    → InSync (write_match now k r m db)
unfolding write_match
write_match-InSync now k r m none db e found same sync =
    rw (write_match, e) (λ c row here. put_sync c k r _ db row found refl refl sync here)
write_match-InSync now k r m (some b) db e found same sync =
    rw (write_match, e)
      (update-InSync b now _ (λ c row other here.
        put_sync c k r _ db row found
          (matched_counts b c m.confidence r r.building_id refl same other) refl sync here))

update-found :
    (b now : ℕ) (row : Building) (db : Database)
    → find b db.buildings ≡ some row
    → let after = record row {
      current_severity = queried_severity b db.reports;
      last_report_at = some now;
    } in
      ((update_building_severity b now db).reports ≡ db.reports)
      × (find b (update_building_severity b now db).buildings ≡ some after)
unfolding update_building_severity
update-found b now row db here = ground (
  arith,
  find-put_self b
      (record row { current_severity = queried_severity b db.reports; last_report_at = some now })
      row db.buildings here,
)

-- The report is at building `b`, beyond doubt.
abbrev pub PlacedAt : ℕ → Option Report → Type 0
PlacedAt b o =
    (s : Report) × (o ≡ some s)
    × (s.building_id ≡ some b)
    × (s.footprint_match_confidence ≡ some one)

module _ (g : Geometry) (settings : GisSettings) (geocode : Option (String → Geocoded)) where
  -- The match that is found moves the report to no other building.
  abbrev pub StaysPut : Table Building → Option Report → Type 0
  StaysPut buildings none = Unit
  StaysPut buildings (some r) =
      NoMove (chosen_match g settings geocode r buildings).building_id r.building_id

  concluded-InSync :
      (now k : ℕ) (r : Report) (m : BuildingMatch) (fault : Option Fault) (db : Database)
      → find k db.reports ≡ some r
      → NoMove m.building_id r.building_id
      → InSync db
      → InSync (concluded now k r m fault db).database
  concluded-InSync now k r m none db found same sync =
      write_match-InSync now k r m m.building_id db refl found same sync
  concluded-InSync now k r m (some integrity) db found same sync = sync
  concluded-InSync now k r m (some before_commit) db found same sync = sync
  concluded-InSync now k r m (some after_commit) db found same sync =
      write_match-InSync now k r m m.building_id db refl found same sync

  -- An attempt of the map task, whatever fails in it, leaves every building at the worst severity among
  -- its reports that are not rejected, unless it moves a report from one building to another.
  pub match_building_impl-InSync :
      (now k : ℕ) (fault : Option Fault) (db : Database)
      → StaysPut db.buildings (find k db.reports)
      → InSync db
      → InSync (match_building_impl g settings geocode now k fault db).database
  unfolding match_building_impl
  match_building_impl-InSync now k fault db stays sync = elim (Option-cases (find k db.reports)) [
    | inl e ↦ rw (match_building_impl, e) sync
    | inr (r, e) ↦
        rw (match_building_impl, e) (concluded-InSync now k r _ fault db e (rw (e) at stays) sync)
  ]

  chosen_pick :
      (b : ℕ) (lat lng : ℤ) (r : Report) (row : Building) (buildings : Table Building)
      → r.reporter_building_missing ≡ false
      → r.reporter_confirmed_building_id ≡ some b
      → r.lat ≡ some lat
      → r.lng ≡ some lng
      → find b buildings ≡ some row
      → leb (g.distance b lat lng) (compute_search_radius settings r.gps_accuracy) ≡ true
      → chosen_match g settings geocode r buildings ≡ record {
        building_id = some b;
        confidence = one;
        distance_m = some (g.distance b lat lng);
        candidates = [];
      }
  unfolding chosen_match confirmed_match confirm_building
  chosen_pick b lat lng r row buildings missing pick at_lat at_lng here near =
      rw (chosen_match, missing, pick, at_lat, at_lng, here, near) refl

  -- If a report names a building of the table within the search radius of its fix, and does not say that
  -- its building is missing, the pick wins over every other building: the report is placed there with
  -- confidence 1, and the building shows the worst severity with the report counted.
  pub match_building_impl-pick :
      (now k b : ℕ) (lat lng : ℤ) (r : Report) (row : Building) (db : Database)
      → find k db.reports ≡ some r
      → r.reporter_building_missing ≡ false
      → r.reporter_confirmed_building_id ≡ some b
      → r.lat ≡ some lat
      → r.lng ≡ some lng
      → find b db.buildings ≡ some row
      → leb (g.distance b lat lng) (compute_search_radius settings r.gps_accuracy) ≡ true
      → let ran = match_building_impl g settings geocode now k none db in
        PlacedAt b (find k ran.database.reports)
        × ((after : Building) × (find b ran.database.buildings ≡ some after)
            × (after.current_severity ≡ worst b ran.database.reports))
  unfolding match_building_impl write_match
  match_building_impl-pick now k b lat lng r row db found missing pick at_lat at_lng here near =
      let placed = record r { building_id = some b; footprint_match_confidence = some one } in
      let moved = put k placed db.reports in
      let (same, shown) = update-found b now row (record db { reports = moved }) here in
      rw
        (
          match_building_impl,
          found,
          chosen_pick b lat lng r row db.buildings missing pick at_lat at_lng here near,
        )
        (
          (placed, rw (same) (find-put_self k placed r db.reports found), refl, refl),
          (_, shown, rw (same) (queried_severity-worst b moved)),
        )
