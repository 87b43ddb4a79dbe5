-- ===== src/Gis/Match/Confirm.antt =====
-- Which buildings a reporter may pick.

use matata_backend.Common.{
  ℕ, ℤ, ◌≡◌, refl, inl, inr, true, Option, some, List, [], ◌∷◌, leb, Option-cases, arith,
}
use matata_backend.Common.Lists.{All, All-weaken, All-take}
use matata_backend.Common.Table.{Table, find}
use matata_backend.Models.{Building}
use matata_backend.Gis.Match.{
  BuildingCandidate, BuildingMatch, Geometry, GisSettings, candidates_near, compute_search_radius,
  gps_building, confirm_building, one, gps_match, shared, apply_probabilities, with_probabilities,
  probability_pool, max_candidates,
}
use matata_backend.Gis.Match.Nearest.{in_reach, in_reach-FromTable}

-- The reporter's pick is accepted.
abbrev pub IsConfirmed : ℕ → Option BuildingMatch → Type 0
IsConfirmed b o =
    (m : BuildingMatch) × (o ≡ some m) × (m.building_id ≡ some b) × (m.confidence ≡ one)

module _ (g : Geometry) (settings : GisSettings) (lat lng : ℤ) where
  -- A pick is confirmed if it is a building of the table within the search radius of the fix.
  confirm_building-within :
      (b : ℕ) (accuracy_m : Option ℕ) (t : Table Building) (row : Building)
      → find b t ≡ some row
      → leb (g.distance b lat lng) (compute_search_radius settings accuracy_m) ≡ true
      → IsConfirmed b (confirm_building g.distance settings b lat lng accuracy_m t)
  unfolding confirm_building
  confirm_building-within b accuracy_m t row found near =
      rw (confirm_building, found, near) (_, refl, refl, refl)

  -- Every candidate near the fix, whatever the limit, is one that the reporter may pick.
  confirm_building-candidates :
      (limit : ℕ) (accuracy_m : Option ℕ) (t : Table Building)
      → All
          (λ c.
            IsConfirmed c.building_id
              (confirm_building g.distance settings c.building_id lat lng accuracy_m t))
          (candidates_near g.distance lat lng (compute_search_radius settings accuracy_m) limit t)
  unfolding candidates_near
  confirm_building-candidates limit accuracy_m t =
      let radius = compute_search_radius settings accuracy_m in
      All-take _ limit (in_reach g.distance lat lng radius t) (
        All-weaken _ _ (in_reach g.distance lat lng radius t)
          (λ c ((at, (row, found)), near).
            confirm_building-within c.building_id accuracy_m t row found (rw (at) at near))
          (in_reach-FromTable g.distance lat lng radius t))

  -- Filling in probabilities keeps which buildings there are.
  with_probabilities-All :
      (P : ℕ → Type 0) (pool : List BuildingCandidate) (probs : List ℕ)
      → All (λ c. P c.building_id) pool
      → All (λ c. P c.building_id) (with_probabilities pool probs)
  unfolding with_probabilities
  with_probabilities-All P [] probs h = tt
  with_probabilities-All P (c ∷ pool) [] h = h
  with_probabilities-All P (c ∷ pool) (p ∷ probs) h = (h.0, with_probabilities-All P pool probs h.1)

  -- Every candidate that a match of the fix shows is one that the reporter may pick.
  pub gps_match-confirmable :
      (accuracy_m : Option ℕ) (t : Table Building) (m : BuildingMatch)
      → gps_match g settings (some lat) (some lng) accuracy_m true t ≡ some m
      → All
          (λ c.
            IsConfirmed c.building_id
              (confirm_building g.distance settings c.building_id lat lng accuracy_m t))
          m.candidates
  unfolding gps_match shared apply_probabilities
  gps_match-confirmable accuracy_m t m e =
      elim (Option-cases (gps_building g settings lat lng accuracy_m t)) [
        | inl f ↦ absurd (ground (arith, e, f))
        | inr (m', f) ↦
            let radius = compute_search_radius settings accuracy_m in
            let pool = candidates_near g.distance lat lng radius probability_pool t in
            let same : shared g settings lat lng radius accuracy_m true m' t ≡ m =
              ground (arith, e, f) in
            rw (← same) (
              All-take _ max_candidates _ (
                with_probabilities-All
                  (λ b. IsConfirmed b (confirm_building g.distance settings b lat lng accuracy_m t))
                  pool _ (confirm_building-candidates probability_pool accuracy_m t)))
      ]
