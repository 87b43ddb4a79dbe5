-- ===== src/Duplicate/Scorer/Merge.antt =====
-- When two reports are close enough for a merge review.
use matata_backend.Common.{
  ℕ, ℤ, ◌≤◌, ◌<◌, ◌≡◌, refl, Bool, true, false, Option, none, some, List, is_some, arith,
}
use matata_backend.Models.{CrisisType, InfrastructureType}
use matata_backend.Duplicate.Signals.{
  one, building_signal, gps_signal, image_signal, category_signal, decay,
}
use matata_backend.Duplicate.Scorer.{
  DuplicateAction, CandidateReport, Incoming, composite, round_div, total_weight, weighted_sum,
  score_candidate, action_for, has_building, has_gps, has_image,
}

image_signal-le-one : (a b : Option (List ℕ)) → image_signal a b ≤ one
unfolding image_signal decay
image_signal-le-one (some a) (some b) = ground arith
image_signal-le-one (some a) none = omega arith
image_signal-le-one none b = omega arith

category_signal-le-one :
    (a : CrisisType) (b : InfrastructureType) (c : CrisisType) (d : InfrastructureType)
    → category_signal a b c d ≤ one
unfolding category_signal
category_signal-le-one a b c d = ground arith

-- With both locations available, a score of 0.9 needs a building signal and two thirds of the
-- proximity signal, whether or not both reports have a photo.
strong_signals :
    (hi : Bool) (b g i k : ℕ)
    → b ≤ one
    → i ≤ one
    → k ≤ one
    → 900000 ≤ round_div (weighted_sum true true hi b g i k) (total_weight true true hi)
    → (g ≤ one)
    → (0 < b) × (666665 ≤ g)
unfolding round_div weighted_sum total_weight
strong_signals true b g i k hb hi hk h hg = ground arith
strong_signals false b g i k hb hi hk h hg = ground arith

building_signal_pos :
    (a b : Option ℕ) → 0 < building_signal a b → (x : ℕ) × (a ≡ some x) × (b ≡ some x)
unfolding building_signal
building_signal_pos (some a) (some b) h = (a, refl, ground arith)
building_signal_pos (some a) none h = absurd (omega arith)
building_signal_pos none b h = absurd (omega arith)

-- Both reports are at the same building.
abbrev pub SameBuilding : Incoming → CandidateReport → Type 0
SameBuilding inc c = (x : ℕ) × (inc.building_id ≡ some x) × (c.building_id ≡ some x)

-- Both reports have coordinates, at most so far apart.
abbrev pub Within : (ℤ → ℤ → ℤ → ℤ → ℕ) → ℕ → Incoming → CandidateReport → Type 0
Within distance far inc c =
    (lat1 : ℤ) × (lng1 : ℤ) × (lat2 : ℤ) × (lng2 : ℤ) × (inc.lat ≡ some lat1)
    × (inc.lng ≡ some lng1)
    × (c.lat ≡ some lat2)
    × (c.lng ≡ some lng2)
    × (distance lat1 lng1 lat2 lng2 ≤ far)

option_of_is_some {ℓ} : {A : Type ℓ} (o : Option A) → is_some o ≡ true → (a : A) × (o ≡ some a)
option_of_is_some (some a) h = (a, refl)
option_of_is_some none h = absurd (ground arith)

gps_signal-le-one :
    (distance : ℤ → ℤ → ℤ → ℤ → ℕ) (a b c d : Option ℤ) → gps_signal distance a b c d ≤ one
unfolding gps_signal
gps_signal-le-one distance a b c d = ground arith

gps_signal-Within :
    (distance : ℤ → ℤ → ℤ → ℤ → ℕ) (inc : Incoming) (c : CandidateReport)
    → has_gps inc c ≡ true
    → 666665 ≤ gps_signal distance inc.lat inc.lng c.lat c.lng
    → Within distance 333335 inc c
gps_signal-Within distance inc c has h =
    let (lat1, e1) = option_of_is_some inc.lat (ground arith) in
    let (lng1, e2) = option_of_is_some inc.lng (ground arith) in
    let (lat2, e3) = option_of_is_some c.lat (ground arith) in
    let (lng2, e4) = option_of_is_some c.lng (ground arith) in
    (lat1, lng1, lat2, lng2, e1, e2, e3, e4, unfold gps_signal in ground arith)

building_signal-le-one : (a b : Option ℕ) → building_signal a b ≤ one
unfolding building_signal
building_signal-le-one a b = ground arith

composite_located :
    (inc : Incoming) (c : CandidateReport) (b g i k : ℕ)
    → has_building inc c ≡ true
    → has_gps inc c ≡ true
    → composite inc c b g i k
      ≡ round_div
          (weighted_sum true true (has_image inc c) b g i k)
          (total_weight true true (has_image inc c))
unfolding composite
composite_located inc c b g i k hb hg = rw (hb, hg) refl

pub action-auto_merge :
    (distance : ℤ → ℤ → ℤ → ℤ → ℕ) (inc : Incoming) (c : CandidateReport)
    → action_for inc (score_candidate distance inc c) ≡ DuplicateAction.auto_merge
    → SameBuilding inc c × Within distance 333335 inc c
unfolding action_for score_candidate
action-auto_merge distance inc c h =
    let b : ℕ = building_signal inc.building_id c.building_id in
    let g : ℕ = gps_signal distance inc.lat inc.lng c.lat c.lng in
    let i : ℕ = image_signal inc.phash c.photo_phash in
    let k : ℕ =
      category_signal inc.crisis_type inc.infrastructure_type c.crisis_type c.infrastructure_type in
    let both : (has_building inc c ≡ true) × (has_gps inc c ≡ true) = ground arith in
    let strong : (0 < b) × (666665 ≤ g) =
      strong_signals (has_image inc c) b g i k (building_signal-le-one _ _)
        (image_signal-le-one inc.phash c.photo_phash) (category_signal-le-one _ _ _ _)
        (rw (← composite_located inc c b g i k both.0 both.1) (ground arith))
        (gps_signal-le-one distance inc.lat inc.lng c.lat c.lng) in
    (
      building_signal_pos inc.building_id c.building_id strong.0,
      gps_signal-Within distance inc c both.1 strong.1,
    )
