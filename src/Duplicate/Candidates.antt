-- ===== src/Duplicate/Candidates.antt =====
-- `_load_candidates` of app/workers/duplicate_tasks.py. PostGIS's `ST_DWithin`, at the radius of 100 m,
-- is a parameter. Times are seconds, and the window is `DUPLICATE_TIME_WINDOW_HOURS` in seconds.
pub mod Eligible
use mathlib.Core.Bool.{◌||◌}
use matata_backend.Common.{
  ℕ, ℤ, ◌+◌, ◌-◌, Bool, true, false, not, ◌&&◌, Option, none, some, List, [], ◌∷◌, ◌++◌, map, ltb,
  leb, ◌==◌, if◌then◌else◌,
}
use matata_backend.Common.Lists.{length, take}
use matata_backend.Common.Table.{Table}
use matata_backend.Models.{ReportStatus, Report, status_eq}
use matata_backend.Duplicate.Scorer.{CandidateReport}

abbrev pub max_candidates : ℕ
max_candidates = 500

-- `id != :report_id AND status NOT IN ('duplicate') AND created_at` within the window.
unfoldable pub eligible : ℕ → ℕ → ℕ → ℕ × Report → Bool
eligible window report_id created_at (j, r) =
    not (j == report_id)
    && not (status_eq r.status ReportStatus.duplicate)
    && leb created_at (r.created_at + window)
    && leb r.created_at (created_at + window)

-- `building_id = :building_id`
abbrev of_building : ℕ → ℕ × Report → Bool
of_building b (j, r) = elim r.building_id [ none ↦ false | some c ↦ c == b ]

-- `ST_DWithin(…)`, which is null, and so selects nothing, at a row with no coordinates.
abbrev in_radius : (ℤ → ℤ → ℤ → ℤ → Bool) → ℤ → ℤ → ℕ × Report → Bool
in_radius near lat lng (j, r) = elim r.lat [
  | none ↦ false
  | some a ↦ elim r.lng [ none ↦ false | some o ↦ near lat lng a o ]
]

unfoldable pub select : (ℕ × Report → Bool) → Table Report → Table Report
select p [] = []
select p (x ∷ t) = if p x then x ∷ select p t else select p t

-- `ORDER BY created_at DESC`
unfoldable pub insert_newest : ℕ × Report → Table Report → Table Report
insert_newest x [] = x ∷ []
insert_newest (j, r) ((i, q) ∷ t) =
    if ltb r.created_at q.created_at then (i, q) ∷ insert_newest (j, r) t else (j, r) ∷ (i, q) ∷ t

unfoldable pub newest_first : Table Report → Table Report
newest_first [] = []
newest_first (x ∷ t) = insert_newest x (newest_first t)

-- `str(id) in existing_ids`
unfoldable pub contains_id : ℕ → Table Report → Bool
contains_id k [] = false
contains_id k ((j, r) ∷ t) = k == j || contains_id k t

unfoldable pub candidate_of : ℕ × Report → CandidateReport
candidate_of (j, r) = record {
  id = j;
  building_id = r.building_id;
  lat = r.lat;
  lng = r.lng;
  photo_phash = r.photo_phash;
  crisis_type = r.crisis_type;
  infrastructure_type = r.infrastructure_type;
}

module _ (near : ℤ → ℤ → ℤ → ℤ → Bool) (window : ℕ) where
  unfoldable pub building_rows : ℕ → Option ℕ → ℕ → Table Report → Table Report
  building_rows k none created_at t = []
  building_rows k (some b) created_at t =
      take max_candidates
        (newest_first (select (λ x. of_building b x && eligible window k created_at x) t))

  unfoldable pub nearby_rows :
      ℕ → Option ℤ → Option ℤ → ℕ → Table Report → Table Report → Table Report
  nearby_rows k (some lat) (some lng) created_at rows t =
      if ltb (length rows) max_candidates
      then take (max_candidates - length rows) (
          newest_first (
            select
              (λ (j, r).
                in_radius near lat lng (j, r)
                && eligible window k created_at (j, r)
                && not (contains_id j rows))
              t))
      else []
  nearby_rows k _ _ created_at rows t = []

  unfoldable pub load_candidates : ℕ → Report → Table Report → List CandidateReport
  load_candidates k r t =
      let rows = building_rows k r.building_id r.created_at t in
      map candidate_of (rows ++ nearby_rows k r.lat r.lng r.created_at rows t)
