-- ===== src/Gis/Match/Shares.antt =====
-- The confidence of a match is a probability.
use native.Mathlib.Nat.{div-mul-le_self, div-le_of_le-mul, mul-le-mul_right, le_of_mul-le-mul_right}
use matata_backend.Common.{
  ℕ, ◌*◌, ◌/◌, ◌≤◌, ◌≡◌, refl, ℤ, String, Bool, Option, none, some, List, [], ◌∷◌, map, leb, truthy,
  ◌==◌, Bool-cases, Option-cases, inl, inr, arith,
}
use matata_backend.Common.Lists.{List-cases, All, length}
use matata_backend.Common.Table.{Table}
use matata_backend.Models.{Building}
use matata_backend.Gis.Match.{
  BuildingCandidate, BuildingMatch, Geometry, GisSettings, Geocoded, one, sum, shares,
  probabilities, matched_share, is_matched, apply_probabilities, as_match, nearest_neighbour,
  candidates_near, point_in_polygon, gps_building, shared, gps_match, landmark_match,
  landmark_geocoding, landmark_radius_m, landmark_accuracy_m, geocoded_match, raises, unknown, at,
  match_building,
}

-- A share times the total is at most the share's part of the sum.
scaled_sum : (total : ℕ) (ws : List ℕ) → sum (map (λ w. w * one / total) ws) * total ≤ sum ws * one
unfolding sum
scaled_sum total [] = omega arith
scaled_sum total (w ∷ ws) =
    let first : w * one / total * total ≤ w * one = div-mul-le_self (w * one) total in
    let rest = scaled_sum total ws in grind arith

equal_sum : (p : ℕ) (ws : List ℕ) → sum (map (λ w. p) ws) ≡ length ws * p
unfolding sum
equal_sum p [] = omega arith
equal_sum p (w ∷ ws) = let rest = equal_sum p ws in grind arith

sum-shares : (ws : List ℕ) → sum (shares ws) ≤ one
unfolding shares
sum-shares ws = elim (Bool-cases (sum ws == 0)) [
  | inl zero' ↦
      rw (shares, zero', equal_sum (one / length ws) ws)
        (let h = div-mul-le_self one (length ws) in grind arith)
  | inr pos ↦
      let h = scaled_sum (sum ws) ws in
      rw (shares, pos) (le_of_mul-le-mul_right {k = sum ws} (grind (arith, h)) (ground arith))
]

sum-All : (n : ℕ) (ws : List ℕ) → sum ws ≤ n → All (λ w. w ≤ n) ws
unfolding sum
sum-All n [] h = tt
sum-All n (w ∷ ws) h = (omega arith, sum-All n ws (omega arith))

matched_share-le :
    (b : Option ℕ) (confidence : ℕ) (pool : List BuildingCandidate) (probs : List ℕ)
    → confidence ≤ one
    → All (λ p. p ≤ one) probs
    → matched_share b confidence pool probs ≤ one
unfolding matched_share
matched_share-le b confidence [] probs h g = h
matched_share-le b confidence (c ∷ pool) [] h g = h
matched_share-le b confidence (c ∷ pool) (p ∷ probs) h g =
    elim (Bool-cases (is_matched b c.building_id)) [
      | inl e ↦ rw (matched_share, e) (matched_share-le b p pool probs g.0 g.1)
      | inr e ↦ rw (matched_share, e) (matched_share-le b confidence pool probs h g.1)
    ]

-- A match is confident to at most `n`, and names a building.
abbrev IsConfident : ℕ → Option BuildingMatch → Type 0
IsConfident n none = Unit
IsConfident n (some m) = (m.confidence ≤ n) × ((b : ℕ) × (m.building_id ≡ some b))

-- How confident a match may be, by whether the coordinates gave it and whether it names a building.
abbrev pub limit_for : Option BuildingMatch → Option ℕ → ℕ
limit_for gps none = 0
limit_for none (some b) = 500000
limit_for (some m) (some b) = one

module _ (g : Geometry) (settings : GisSettings) where
  shared-IsConfident :
      (lat lng : ℤ) (radius : ℕ) (accuracy_m : Option ℕ) (with_candidates : Bool)
      (m : BuildingMatch) (t : Table Building)
      → IsConfident one (some m)
      → IsConfident one (some (shared g settings lat lng radius accuracy_m with_candidates m t))
  unfolding shared apply_probabilities probabilities
  shared-IsConfident lat lng radius accuracy_m with_candidates m t (h, named) =
      (matched_share-le m.building_id m.confidence _ _ h (sum-All one _ (sum-shares _)), named)

  polygon-IsConfident :
      (lat lng : ℤ) (t : Table Building) → IsConfident one (point_in_polygon g.contains lat lng t)
  unfolding point_in_polygon
  polygon-IsConfident lat lng [] = tt
  polygon-IsConfident lat lng ((b, row) ∷ t) = elim (Bool-cases (g.contains b lat lng)) [
    | inl e ↦ rw (point_in_polygon, e) (omega arith, (b, refl))
    | inr e ↦ rw (point_in_polygon, e) (polygon-IsConfident lat lng t)
  ]

  as_match-IsConfident : (radius : ℕ) (c : BuildingCandidate) → IsConfident one (as_match radius c)
  as_match-IsConfident radius c = elim (Bool-cases (leb radius c.distance_m)) [
    | inl e ↦ rw (e) tt
    | inr e ↦
        rw (e) (div-le_of_le-mul radius (mul-le-mul_right one (omega arith)), (c.building_id, refl))
  ]

  nearest-IsConfident :
      (lat lng : ℤ) (radius : ℕ) (t : Table Building)
      → IsConfident one (nearest_neighbour g.distance lat lng radius t)
  unfolding nearest_neighbour
  nearest-IsConfident lat lng radius t =
      elim (List-cases (candidates_near g.distance lat lng radius 1 t)) [
        | inl e ↦ rw (nearest_neighbour, e) tt
        | inr (c, cs, e) ↦ rw (nearest_neighbour, e) (as_match-IsConfident radius c)
      ]

  gps_building-IsConfident :
      (lat lng : ℤ) (accuracy_m : Option ℕ) (t : Table Building)
      → IsConfident one (gps_building g settings lat lng accuracy_m t)
  unfolding gps_building
  gps_building-IsConfident lat lng accuracy_m t =
      elim (Option-cases (point_in_polygon g.contains lat lng t)) [
        | inl e ↦ rw (gps_building, e) (nearest-IsConfident lat lng _ t)
        | inr (m, e) ↦ rw (gps_building, e) (rw (e) at (polygon-IsConfident lat lng t))
      ]

  gps_match-IsConfident :
      (lat lng : Option ℤ) (accuracy_m : Option ℕ) (with_candidates : Bool) (t : Table Building)
      → IsConfident one (gps_match g settings lat lng accuracy_m with_candidates t)
  unfolding gps_match
  gps_match-IsConfident (some lat) (some lng) accuracy_m with_candidates t =
      elim (Option-cases (gps_building g settings lat lng accuracy_m t)) [
        | inl e ↦ rw (gps_match, e) tt
        | inr (m, e) ↦
            rw (gps_match, e)
              (shared-IsConfident lat lng _ accuracy_m with_candidates m t
                (rw (e) at (gps_building-IsConfident lat lng accuracy_m t)))
      ]
  gps_match-IsConfident (some lat) none accuracy_m with_candidates t = tt
  gps_match-IsConfident none lng accuracy_m with_candidates t = tt

  landmark_match-IsConfident :
      (lat lng : ℤ) (with_candidates : Bool) (t : Table Building)
      → IsConfident 500000 (landmark_match g settings lat lng with_candidates t)
  unfolding landmark_match
  landmark_match-IsConfident lat lng with_candidates t =
      elim (Option-cases (nearest_neighbour g.distance lat lng landmark_radius_m t)) [
        | inl e ↦ rw (landmark_match, e) tt
        | inr (m, e) ↦
            let (h, named) =
              shared-IsConfident lat lng landmark_radius_m (some landmark_accuracy_m)
                with_candidates m t (rw (e) at (nearest-IsConfident lat lng landmark_radius_m t)) in
            rw (landmark_match, e) (omega arith, named)
      ]

  geocoded_match-IsConfident :
      (place : Geocoded) (with_candidates : Bool) (t : Table Building)
      → IsConfident 500000 (geocoded_match g settings place with_candidates t)
  geocoded_match-IsConfident raises with_candidates t = tt
  geocoded_match-IsConfident unknown with_candidates t = tt
  geocoded_match-IsConfident (at lat lng) with_candidates t =
      landmark_match-IsConfident lat lng with_candidates t

  landmark_geocoding-IsConfident :
      (landmark : Option String) (geocode : Option (String → Geocoded)) (with_candidates : Bool)
      (t : Table Building)
      → IsConfident 500000 (landmark_geocoding g settings landmark geocode with_candidates t)
  unfolding landmark_geocoding
  landmark_geocoding-IsConfident (some landmark) (some geocode) with_candidates t =
      elim (Bool-cases (truthy (some landmark))) [
        | inl e ↦
            rw (landmark_geocoding, e)
              (geocoded_match-IsConfident (geocode landmark) with_candidates t)
        | inr e ↦ rw (landmark_geocoding, e) tt
      ]
  landmark_geocoding-IsConfident (some landmark) none with_candidates t = tt
  landmark_geocoding-IsConfident none geocode with_candidates t = tt

  -- The confidence of a match is at most 1; it is at most a half if the coordinates gave no match, and
  -- 0 if no building is matched.
  pub match_building-confidence :
      (lat lng : Option ℤ) (accuracy_m : Option ℕ) (landmark : Option String)
      (geocode : Option (String → Geocoded)) (with_candidates : Bool) (t : Table Building)
      → let m = match_building g settings lat lng accuracy_m landmark geocode with_candidates t in
        m.confidence
        ≤ limit_for (gps_match g settings lat lng accuracy_m with_candidates t) m.building_id
  unfolding match_building
  match_building-confidence lat lng accuracy_m landmark geocode with_candidates t =
      let gps = gps_match-IsConfident lat lng accuracy_m with_candidates t in
      let place = landmark_geocoding-IsConfident landmark geocode with_candidates t in
      elim (Option-cases (gps_match g settings lat lng accuracy_m with_candidates t)) [
        | inr (m, e) ↦
            let (h, (b, named)) : IsConfident one (some m) = rw (e) at gps in
            rw (match_building, e, named) h
        | inl e ↦
            elim (Option-cases (landmark_geocoding g settings landmark geocode with_candidates t)) [
              | inr (m, f) ↦
                  let (h, (b, named)) : IsConfident 500000 (some m) = rw (f) at place in
                  rw (match_building, e, f, named) h
              | inl f ↦ rw (match_building, e, f) (omega arith)
            ]
      ]
