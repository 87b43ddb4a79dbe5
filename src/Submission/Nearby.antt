-- ===== src/Submission/Nearby.antt =====
-- The check for reports near a point: `get_nearby_reports` of app/services/submission_service.py, with its
-- answers in Redis, which are texts that are read back as they were written. Lengths are millimetres.
-- The distance and the width of the box along the parallel, which take trigonometry, are arguments.
pub mod Recent
use matata_backend.Common.{
  ℕ, ℤ, pos, negsuc, ◌+◌, ◌-◌, ◌*◌, ◌/◌, min, Bool, true, false, not, ◌&&◌, ◌||◌, Option, none,
  some, List, [], ◌∷◌, ltb, leb, ◌==◌, if◌then◌else◌,
}
use matata_backend.Common.Lists.{take}
use matata_backend.Common.Sort.{sort_by, filter}
use matata_backend.Common.Table.{Table}
use matata_backend.Models.{ReportStatus, ReportDamageSeverity, Report, status_eq}
use matata_backend.Duplicate.Scorer.{round_div}
use matata_backend.Submission.Own.{latest_first}

pub record Nearby : Type 0 where
  pub id : ℕ
  pub lat : ℤ
  pub lng : ℤ
  pub status : ReportStatus
  pub damage_severity : ReportDamageSeverity
  pub created_at : ℕ
  pub similarity_score : ℕ

-- `round(x, 4)` of a coordinate: whether it has a sign, and the ten thousandths. Python prints the zero
-- that a negative number is rounded to as -0.0.
abbrev round_degrees : ℤ → Bool × ℕ
round_degrees (pos n) = (false, round_div n 100)
round_degrees (negsuc n) = (true, round_div (n + 1) 100)

-- The cache key: the two coordinates and the whole metres of the radius.
abbrev pub Cell : Type 0
Cell = (Bool × ℕ) × (Bool × ℕ) × ℕ

abbrev pub cell_of : ℤ → ℤ → ℕ → Cell
cell_of lat lng radius_m = (round_degrees lat, round_degrees lng, radius_m / 1000)

abbrev same_sign : Bool → Bool → Bool
same_sign true b = b
same_sign false b = not b

abbrev pub cell_eq : Cell → Cell → Bool
cell_eq ((s, a), (t, b), m) ((s', a'), (t', b'), m') =
    same_sign s s' && (a == a') && same_sign t t' && (b == b') && (m == m')

pub record Entry : Type 0 where
  pub expires_at : ℕ
  pub output : List Nearby

-- The keys of the cache.
abbrev pub Cache : Type 0
Cache = Cell → Option Entry

abbrev pub get : ℕ → Cell → Cache → Option (List Nearby)
get now key cache = elim (cache key) [
  | none ↦ none
  | some e ↦ if ltb now e.expires_at then some e.output else none
]

abbrev pub set : Cell → Entry → Cache → Cache
set key e cache other = if cell_eq other key then some e else cache other

-- How far apart two coordinates are.
abbrev apart : ℤ → ℤ → ℕ
apart (pos a) (pos b) = a - b + (b - a)
apart (negsuc a) (negsuc b) = a - b + (b - a)
apart (pos a) (negsuc b) = a + b + 1
apart (negsuc a) (pos b) = a + b + 1

-- `.where(Report.status.in_([...]))`
abbrev pub is_shown : Report → Bool
is_shown r = status_eq r.status ReportStatus.pending || status_eq r.status ReportStatus.verified

-- `max(0.0, 1.0 - dist / 50.0) * 0.30`, in ten thousandths.
abbrev similarity : ℕ → ℕ
similarity dist = round_div (300000 - 6 * dist) 100

module _ (lng_delta : ℕ → ℤ → ℕ) (haversine_m : ℤ → ℤ → ℤ → ℤ → ℕ) where
  -- The box: `radius_m / 111_320.0` degrees of latitude, and a number of degrees of longitude.
  abbrev in_box : ℤ → ℤ → ℕ → Option ℤ → Option ℤ → Bool
  in_box lat lng radius_m (some a) (some o) =
      leb (apart a lat * 111320) (radius_m * 1000) && leb (apart o lng) (lng_delta radius_m lat)
  in_box lat lng radius_m _ _ = false

  -- The loop over the rows of the box. The assertion of the source holds of each of them.
  unfoldable pub nearby_of : ℤ → ℤ → ℕ → List (ℕ × Report) → List Nearby
  nearby_of lat lng radius_m [] = []
  nearby_of lat lng radius_m ((k, r) ∷ rows) =
      let rest = nearby_of lat lng radius_m rows in
      elim r.lat [
        | none ↦ rest
        | some a ↦ elim r.lng [
          | none ↦ rest
          | some o ↦
              if leb (haversine_m lat lng a o) radius_m
              then record {
                id = k;
                lat = a;
                lng = o;
                status = r.status;
                damage_severity = r.damage_severity;
                created_at = r.created_at;
                similarity_score = similarity (haversine_m lat lng a o);
              }
                ∷ rest
              else rest
        ]
      ]

  -- The query and the loop over its rows.
  unfoldable pub query_nearby : ℤ → ℤ → ℕ → Table Report → List Nearby
  query_nearby lat lng radius_m t = nearby_of lat lng radius_m (
      take 50 (
        sort_by latest_first
          (filter (λ (k, r). in_box lat lng radius_m r.lat r.lng && is_shown r) t)))

  unfoldable pub get_nearby_reports : ℤ → ℤ → ℕ → ℕ → Table Report → Cache → List Nearby × Cache
  get_nearby_reports lat lng radius_m now t cache =
      let radius = min radius_m 100000 in
      let key = cell_of lat lng radius in
      elim (get now key cache) [
        | some output ↦ (output, cache)
        | none ↦
            let output = query_nearby lat lng radius t in
            (output, set key (record { expires_at = now + 30; output = output }) cache)
      ]
