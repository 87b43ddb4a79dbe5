-- ===== src/Gis/Match/Nearest.antt =====
-- Which building a fix is matched to.

use matata_backend.Common.{
  ℕ, ℤ, ◌≤◌, ◌<◌, ◌≡◌, refl, ◌⊎◌, inl, inr, true, false, Option, none, some, List, [], ◌∷◌, leb,
  ◌==◌, Bool-cases, Option-cases, arith,
}
use matata_backend.Common.Lists.{List-cases, All, All-weaken}
use matata_backend.Common.Sort.{
  sort_by, filter, IsOrder, sort_by-IsSorted, sort_by-All, sort_by-All_inv, filter-All,
  filter-All_inv,
}
use matata_backend.Common.Table.{Table, find}
use matata_backend.Models.{Building}
use matata_backend.Gis.Match.{
  BuildingCandidate, BuildingMatch, Geometry, GisSettings, nearer, measured, candidates_near,
  nearest_neighbour, point_in_polygon, compute_search_radius, gps_building,
}

module _ (distance : ℕ → ℤ → ℤ → ℕ) (lat lng : ℤ) where
  nearer-IsOrder : IsOrder (nearer distance)
  nearer-IsOrder = record { total = λ x y h. ground arith; trans = λ x y z h g. ground arith }

  -- The candidate is a building of the table, at its distance.
  abbrev pub FromTable : Table Building → BuildingCandidate → Type 0
  FromTable t c =
      (c.distance_m ≡ distance c.building_id lat lng)
      × ((row : Building) × (find c.building_id t ≡ some row))

  -- No building of the table is nearer than `d`.
  abbrev NoneNearer : ℕ → Table Building → Type 0
  NoneNearer d t = All (λ row. d ≤ distance row.0 lat lng) t

  measured-NoneNearer :
      (d : ℕ) (t : Table Building)
      → All (λ c. d ≤ c.distance_m) (measured distance lat lng t)
      → NoneNearer d t
  unfolding measured
  measured-NoneNearer d [] h = tt
  measured-NoneNearer d ((b, row) ∷ t) h = (h.0, measured-NoneNearer d t h.1)

  FromTable-cons :
      (b : ℕ) (row : Building) (t : Table Building) (c : BuildingCandidate)
      → FromTable t c
      → FromTable ((b, row) ∷ t) c
  unfolding find
  FromTable-cons b row t c (e, (r, found)) = elim (Bool-cases (c.building_id == b)) [
    | inl same ↦ (e, (row, ground arith))
    | inr other ↦ (e, (r, ground arith))
  ]

  measured-FromTable : (t : Table Building) → All (FromTable t) (measured distance lat lng t)
  unfolding measured find
  measured-FromTable [] = tt
  measured-FromTable ((b, row) ∷ t) = (
    (refl, (row, ground arith)),
    All-weaken _ _ (measured distance lat lng t) (FromTable-cons b row t) (measured-FromTable t),
  )

  -- The candidates, nearest first, before any limit.
  abbrev pub in_reach : ℕ → Table Building → List BuildingCandidate
  in_reach radius t =
      sort_by (nearer distance)
        (filter (λ c. leb c.distance_m radius) (measured distance lat lng t))

  pub in_reach-FromTable :
      (radius : ℕ) (t : Table Building)
      → All (λ c. FromTable t c × (leb c.distance_m radius ≡ true)) (in_reach radius t)
  in_reach-FromTable radius t =
      sort_by-All _ (nearer distance) (filter _ (measured distance lat lng t))
        (filter-All (FromTable t) _ (measured distance lat lng t) (measured-FromTable t))

  reach_none : (radius : ℕ) (t : Table Building) → in_reach radius t ≡ [] → NoneNearer radius t
  reach_none radius t e = measured-NoneNearer radius t (
      filter-All_inv (λ c. radius ≤ c.distance_m) (λ c. leb c.distance_m radius)
        (measured distance lat lng t) (λ c out. ground arith)
        (sort_by-All_inv _ (nearer distance) _ (rw (e) tt)))

  reach_first :
      (radius : ℕ) (t : Table Building) (c : BuildingCandidate) (cs : List BuildingCandidate)
      → in_reach radius t ≡ c ∷ cs
      → FromTable t c × (c.distance_m ≤ radius) × NoneNearer c.distance_m t
  reach_first radius t c cs e =
      let rows = filter (λ c. leb c.distance_m radius) (measured distance lat lng t) in
      let (from, near) : FromTable t c × (leb c.distance_m radius ≡ true) =
        (rw (e) at (in_reach-FromTable radius t)).0 in
      let least : All (λ d. leb c.distance_m d.distance_m ≡ true) cs =
        (rw (e) at (sort_by-IsSorted (nearer distance) nearer-IsOrder rows)).0 in
      (
        from,
        ground arith,
        measured-NoneNearer c.distance_m t (
            filter-All_inv (λ d. c.distance_m ≤ d.distance_m) (λ d. leb d.distance_m radius)
              (measured distance lat lng t) (λ d out. ground arith)
              (sort_by-All_inv _ (nearer distance) rows
                (rw (e) ((ground arith), All-weaken _ _ cs (λ d le. ground (arith, le)) least)))),
      )

  -- What a snapped fix is.
  abbrev IsNearest : ℕ → Table Building → Option BuildingMatch → Type 0
  IsNearest radius t none = NoneNearer radius t
  IsNearest radius t (some m) =
      (b : ℕ) × (m.building_id ≡ some b)
      × ((row : Building) × (find b t ≡ some row))
      × (distance b lat lng < radius)
      × NoneNearer (distance b lat lng) t

  nearest_neighbour-IsNearest :
      (radius : ℕ) (t : Table Building)
      → IsNearest radius t (nearest_neighbour distance lat lng radius t)
  unfolding nearest_neighbour candidates_near
  nearest_neighbour-IsNearest radius t = elim (List-cases (in_reach radius t)) [
    | inl e ↦ rw (nearest_neighbour, e) (reach_none radius t e)
    | inr (c, cs, e) ↦
        let ((at, row), near, none_nearer) = reach_first radius t c cs e in
        elim (Bool-cases (leb radius c.distance_m)) [
          | inl far ↦
              rw (nearest_neighbour, e, far)
                (All-weaken _ _ t (λ row le. ground (arith, far)) none_nearer)
          | inr close ↦
              rw (nearest_neighbour, e, close)
                (c.building_id, refl, row, ground arith, rw (at) at none_nearer)
        ]
  ]

-- A fix: the building whose footprint is around it, and else the nearest building.
module _ (g : Geometry) (settings : GisSettings) (lat lng : ℤ) where
  -- No footprint of the table is around the point.
  abbrev NoneAround : Table Building → Type 0
  NoneAround t = All (λ row. g.contains row.0 lat lng ≡ false) t

  abbrev Around : Table Building → Option BuildingMatch → Type 0
  Around t none = NoneAround t
  Around t (some m) =
      (b : ℕ) × (m.building_id ≡ some b)
      × (g.contains b lat lng ≡ true)
      × ((row : Building) × (find b t ≡ some row))

  Around-cons :
      (b : ℕ) (row : Building) (t : Table Building) (o : Option BuildingMatch)
      → g.contains b lat lng ≡ false
      → Around t o
      → Around ((b, row) ∷ t) o
  unfolding find
  Around-cons b row t none out h = (out, h)
  Around-cons b row t (some m) out (c, e, inside, (r, found)) = elim (Bool-cases (c == b)) [
    | inl same ↦ (c, e, inside, (row, ground arith))
    | inr other ↦ (c, e, inside, (r, ground arith))
  ]

  point_in_polygon-Around : (t : Table Building) → Around t (point_in_polygon g.contains lat lng t)
  unfolding point_in_polygon find
  point_in_polygon-Around [] = tt
  point_in_polygon-Around ((b, row) ∷ t) = elim (Bool-cases (g.contains b lat lng)) [
    | inl inside ↦ rw (point_in_polygon, inside) (b, refl, inside, (row, ground arith))
    | inr out ↦
        rw (point_in_polygon, out)
          (Around-cons b row t (point_in_polygon g.contains lat lng t) out
            (point_in_polygon-Around t))
  ]

  -- What the fix is matched to: with no match, no footprint is around it and none is nearer than the
  -- radius; a match is a building of the table whose footprint is around
  -- it, or, if there is none, the nearest one of all.
  abbrev pub IsSnapped : ℕ → Table Building → Option BuildingMatch → Type 0
  IsSnapped radius t none = NoneAround t × NoneNearer g.distance lat lng radius t
  IsSnapped radius t (some m) =
      (b : ℕ) × (m.building_id ≡ some b)
      × ((row : Building) × (find b t ≡ some row))
      × ((g.contains b lat lng ≡ true)
          ⊎ (NoneAround t
              × (g.distance b lat lng < radius)
              × NoneNearer g.distance lat lng (g.distance b lat lng) t))

  -- A fix is matched to a footprint around it, and if there is none to the nearest footprint nearer
  -- than the search radius; it is unmatched only if there is neither.
  pub gps_building-IsSnapped :
      (accuracy_m : Option ℕ) (t : Table Building)
      → IsSnapped
          (compute_search_radius settings accuracy_m)
          t
          (gps_building g settings lat lng accuracy_m t)
  unfolding gps_building
  gps_building-IsSnapped accuracy_m t =
      let radius = compute_search_radius settings accuracy_m in
      let around = point_in_polygon-Around t in
      let nearest = nearest_neighbour-IsNearest g.distance lat lng radius t in
      elim (Option-cases (point_in_polygon g.contains lat lng t)) [
        | inr (m, e) ↦
            let (b, at, inside, row) : Around t (some m) = rw (e) at around in
            rw (gps_building, e) (b, at, row, inl inside)
        | inl e ↦
            let out : NoneAround t = rw (e) at around in
            elim (Option-cases (nearest_neighbour g.distance lat lng radius t)) [
              | inl f ↦ rw (gps_building, e, f) (out, rw (f) at nearest)
              | inr (m, f) ↦
                  let (b, at, row, close, least) : IsNearest g.distance lat lng radius t (some m) =
                    rw (f) at nearest in
                  rw (gps_building, e, f) (b, at, row, inr (out, close, least))
            ]
      ]
