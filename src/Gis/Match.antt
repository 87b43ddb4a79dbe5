-- ===== src/Gis/Match.antt =====
-- `GISService` of app/services/gis_service.py: which building a report is about. Lengths are
-- millimetres and probabilities millionths. What PostGIS answers for a footprint and a point, what the
-- geocoder answers, and Python's `math.hypot` and `math.exp` are arguments; `ST_DWithin` holds for the
-- distances up to the radius. The texts of the footprints are only passed on, and left out.
pub mod Nearest
pub mod Confirm
pub mod Shares
use matata_backend.Common.{
  ℕ, ◌+◌, ◌-◌, ◌*◌, ◌/◌, min, ℤ, String, Bool, true, false, ◌&&◌, Option, none, some, List, [], ◌∷◌,
  map, ltb, leb, ◌==◌, truthy, if◌then◌else◌,
}
use matata_backend.Common.Lists.{length, take}
use matata_backend.Common.Sort.{sort_by, filter}
use matata_backend.Common.Table.{Table, find}
use matata_backend.Models.{Building}

pub record BuildingCandidate : Type 0 where
  pub building_id : ℕ
  pub distance_m : ℕ
  pub probability : ℕ

pub record BuildingMatch : Type 0 where
  pub building_id : Option ℕ
  pub confidence : ℕ
  pub distance_m : Option ℕ
  pub candidates : List BuildingCandidate

-- What a geocoding provider does: `raises` is a `GeocodingError`.
pub data Geocoded : Type 0 where
  raises unknown : Geocoded
  at : ℤ → ℤ → Geocoded

-- `MAX_CANDIDATES`, `_LANDMARK_RADIUS_M`, `_PROBABILITY_POOL`, `_MAP_SIGMA_M`, `_LANDMARK_ACCURACY_M`
abbrev pub max_candidates : ℕ
max_candidates = 3

abbrev pub landmark_radius_m : ℕ
landmark_radius_m = 100000

abbrev pub probability_pool : ℕ
probability_pool = 10

abbrev map_sigma_m : ℕ
map_sigma_m = 2000

abbrev pub landmark_accuracy_m : ℕ
landmark_accuracy_m = 50000

-- 1 as a probability.
abbrev pub one : ℕ
one = 1000000

-- `GPS_DEFAULT_ACCURACY_M` and `BUILDING_FOOTPRINT_SEARCH_RADIUS_M`
pub record GisSettings : Type 0 where
  pub default_accuracy_m : ℕ
  pub search_radius_m : ℕ

unfoldable pub compute_search_radius : GisSettings → Option ℕ → ℕ
compute_search_radius settings none = settings.search_radius_m
compute_search_radius settings (some accuracy_m) =
    if ltb 50000 accuracy_m then min (accuracy_m * 3 / 2) 100000 else settings.search_radius_m

-- `accuracy_m if accuracy_m and accuracy_m > 0 else None`, with the default for `None`.
abbrev reported : GisSettings → Option ℕ → ℕ
reported settings none = settings.default_accuracy_m
reported settings (some a) = if ltb 0 a then a else settings.default_accuracy_m

unfoldable pub sum : List ℕ → ℕ
sum [] = 0
sum (w ∷ ws) = w + sum ws

-- The shares of the likelihoods, or equal ones if every likelihood is 0.
unfoldable pub shares : List ℕ → List ℕ
shares weights =
    let total = sum weights in
    if total == 0
    then map (λ w. one / length weights) weights
    else map (λ w. w * one / total) weights

-- `for cand, prob in zip(pool, probs): cand.probability = prob`
unfoldable pub with_probabilities : List BuildingCandidate → List ℕ → List BuildingCandidate
with_probabilities (c ∷ pool) (p ∷ probs) =
    record c { probability = p } ∷ with_probabilities pool probs
with_probabilities pool _ = pool

abbrev pub is_matched : Option ℕ → ℕ → Bool
is_matched none i = false
is_matched (some b) i = i == b

-- The confidence of the match after the loop.
unfoldable pub matched_share : Option ℕ → ℕ → List BuildingCandidate → List ℕ → ℕ
matched_share b confidence (c ∷ pool) (p ∷ probs) =
    let now = if is_matched b c.building_id then p else confidence in matched_share b now pool probs
matched_share b confidence _ _ = confidence

abbrev pub unmatched : BuildingMatch
unmatched = record { building_id = none; confidence = 0; distance_m = none; candidates = [] }

module _ (hypot : ℕ → ℕ → ℕ) (likelihood : ℕ → ℕ → ℕ) (settings : GisSettings) where
  unfoldable pub sigma_m : Option ℕ → ℕ
  sigma_m accuracy_m = hypot (reported settings accuracy_m * 1000 / 1515) map_sigma_m

  -- `exp(-d² / 2σ²)` of each distance, as shares.
  unfoldable pub probabilities : List ℕ → ℕ → List ℕ
  probabilities distances_m sigma = shares (map (λ d. likelihood d sigma) distances_m)

  unfoldable pub apply_probabilities :
      BuildingMatch → List BuildingCandidate → Option ℕ → BuildingMatch × List BuildingCandidate
  apply_probabilities m pool accuracy_m =
      let probs = probabilities (map (λ c. c.distance_m) pool) (sigma_m accuracy_m) in
      (
        record m { confidence = matched_share m.building_id m.confidence pool probs },
        with_probabilities pool probs,
      )

-- The match that a nearest building makes, unless its confidence is not positive.
abbrev pub as_match : ℕ → BuildingCandidate → Option BuildingMatch
as_match radius c =
    if leb radius c.distance_m
    then none
    else some (record {
      building_id = some c.building_id;
      confidence = (radius - c.distance_m) * one / radius;
      distance_m = some c.distance_m;
      candidates = [];
    })

module _ (distance : ℕ → ℤ → ℤ → ℕ) where
  -- The order of `ORDER BY distance_m ASC`.
  abbrev pub nearer : BuildingCandidate → BuildingCandidate → Bool
  nearer c d = leb c.distance_m d.distance_m

  -- The rows of the table, with their distances.
  unfoldable pub measured : ℤ → ℤ → Table Building → List BuildingCandidate
  measured lat lng [] = []
  measured lat lng ((b, row) ∷ t) =
      record { building_id = b; distance_m = distance b lat lng; probability = 0 }
      ∷ measured lat lng t

  -- `_candidates`: those within the radius, the nearest ones first.
  unfoldable pub candidates_near : ℤ → ℤ → ℕ → ℕ → Table Building → List BuildingCandidate
  candidates_near lat lng radius limit buildings =
      take limit
        (sort_by nearer (filter (λ c. leb c.distance_m radius) (measured lat lng buildings)))

  unfoldable pub nearest_neighbour : ℤ → ℤ → ℕ → Table Building → Option BuildingMatch
  nearest_neighbour lat lng radius buildings = elim (candidates_near lat lng radius 1 buildings) [
    | [] ↦ none
    | c ∷ cs ↦ as_match radius c
  ]

  unfoldable pub confirm_building :
      GisSettings → ℕ → ℤ → ℤ → Option ℕ → Table Building → Option BuildingMatch
  confirm_building settings b lat lng accuracy_m buildings = elim (find b buildings) [
    | none ↦ none
    | some row ↦
        if leb (distance b lat lng) (compute_search_radius settings accuracy_m)
        then some (record {
          building_id = some b;
          confidence = one;
          distance_m = some (distance b lat lng);
          candidates = [];
        })
        else none
  ]

module _ (contains : ℕ → ℤ → ℤ → Bool) where
  unfoldable pub point_in_polygon : ℤ → ℤ → Table Building → Option BuildingMatch
  point_in_polygon lat lng [] = none
  point_in_polygon lat lng ((b, row) ∷ t) =
      let later = point_in_polygon lat lng t in
      if contains b lat lng
      then some
          (record { building_id = some b; confidence = one; distance_m = none; candidates = [] })
      else later

abbrev shown_candidates : Bool → List BuildingCandidate → List BuildingCandidate
shown_candidates true pool = take max_candidates pool
shown_candidates false pool = []

-- What the service asks of PostGIS and of Python's `math`.
pub record Geometry : Type 0 where
  pub distance : ℕ → ℤ → ℤ → ℕ
  pub contains : ℕ → ℤ → ℤ → Bool
  pub hypot : ℕ → ℕ → ℕ
  pub likelihood : ℕ → ℕ → ℕ

module _ (g : Geometry) (settings : GisSettings) where
  -- Steps 1 and 2: the building around the point, or the nearest one.
  unfoldable pub gps_building : ℤ → ℤ → Option ℕ → Table Building → Option BuildingMatch
  gps_building lat lng accuracy_m buildings = elim (point_in_polygon g.contains lat lng buildings) [
    | none ↦
        nearest_neighbour g.distance lat lng (compute_search_radius settings accuracy_m) buildings
    | some m ↦ some m
  ]

  -- The match with its share of the likelihood, and the candidates if they are asked for.
  unfoldable pub shared :
      ℤ → ℤ → ℕ → Option ℕ → Bool → BuildingMatch → Table Building → BuildingMatch
  shared lat lng radius accuracy_m with_candidates m buildings =
      let (m', pool) =
        apply_probabilities g.hypot g.likelihood settings m
          (candidates_near g.distance lat lng radius probability_pool buildings) accuracy_m in
      record m' { candidates = shown_candidates with_candidates pool }

  unfoldable pub gps_match :
      Option ℤ → Option ℤ → Option ℕ → Bool → Table Building → Option BuildingMatch
  gps_match (some lat) (some lng) accuracy_m with_candidates buildings =
      elim (gps_building lat lng accuracy_m buildings) [
        | none ↦ none
        | some m ↦ some (
            shared lat lng (compute_search_radius settings accuracy_m) accuracy_m with_candidates m
              buildings)
      ]
  gps_match _ _ accuracy_m with_candidates buildings = none

  -- Step 3, for coordinates that the geocoder gave.
  unfoldable pub landmark_match : ℤ → ℤ → Bool → Table Building → Option BuildingMatch
  landmark_match lat lng with_candidates buildings =
      elim (nearest_neighbour g.distance lat lng landmark_radius_m buildings) [
        | none ↦ none
        | some m ↦
            let m' =
              shared lat lng landmark_radius_m (some landmark_accuracy_m) with_candidates m
                buildings in
            some (record m' { confidence = min m'.confidence 500000 })
      ]

  abbrev pub geocoded_match : Geocoded → Bool → Table Building → Option BuildingMatch
  geocoded_match raises with_candidates buildings = none
  geocoded_match unknown with_candidates buildings = none
  geocoded_match (at lat lng) with_candidates buildings =
      landmark_match lat lng with_candidates buildings

  -- Step 3, if there is a landmark and a provider.
  unfoldable pub landmark_geocoding :
      Option String → Option (String → Geocoded) → Bool → Table Building → Option BuildingMatch
  landmark_geocoding (some landmark) (some geocode) with_candidates buildings =
      if truthy (some landmark)
      then geocoded_match (geocode landmark) with_candidates buildings
      else none
  landmark_geocoding _ _ with_candidates buildings = none

  unfoldable pub match_building :
      Option ℤ
      → Option ℤ
      → Option ℕ
      → Option String
      → Option (String → Geocoded)
      → Bool
      → Table Building
      → BuildingMatch
  match_building lat lng accuracy_m landmark geocode with_candidates buildings =
      elim (gps_match lat lng accuracy_m with_candidates buildings) [
        | some m ↦ m
        | none ↦ elim (landmark_geocoding landmark geocode with_candidates buildings) [
          | some m ↦ m
          | none ↦ unmatched
        ]
      ]
