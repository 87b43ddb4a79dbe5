-- ===== src/Duplicate/Scorer.antt =====
-- `DuplicateScorer.score` of app/services/duplicate_service.py.
pub mod Best
pub mod Merge
pub mod Outcome
use mathlib.Core.Bool.{◌||◌}
use matata_backend.Common.{
  ℕ, ℤ, ◌+◌, ◌*◌, ◌/◌, ◌%◌, Bool, true, false, ◌&&◌, Option, none, some, List, [], ◌∷◌, map,
  is_some, ltb, leb, if◌then◌else◌,
}
use matata_backend.Models.{CrisisType, InfrastructureType}
use matata_backend.Duplicate.Signals.{
  building_signal, gps_signal, image_signal, category_signal, has_text, int_of,
}

pub data DuplicateAction : Type 0 where
  auto_merge analyst_flag independent : DuplicateAction

pub record CandidateReport : Type 0 where
  pub id : ℕ
  pub building_id : Option ℕ
  pub lat : Option ℤ
  pub lng : Option ℤ
  pub photo_phash : Option (List ℕ)
  pub crisis_type : CrisisType
  pub infrastructure_type : InfrastructureType

-- The keyword arguments of `score` that describe the incoming report.
pub record Incoming : Type 0 where
  pub building_id : Option ℕ
  pub lat : Option ℤ
  pub lng : Option ℤ
  pub phash : Option (List ℕ)
  pub crisis_type : CrisisType
  pub infrastructure_type : InfrastructureType

pub record ScoredCandidate : Type 0 where
  pub candidate : CandidateReport
  pub composite_score : ℕ
  pub building_score : ℕ
  pub gps_score : ℕ
  pub image_score : ℕ
  pub category_score : ℕ

pub record DuplicateResult : Type 0 where
  pub action : DuplicateAction
  pub best_score : ℕ
  pub best_candidate : Option ScoredCandidate
  pub all_scores : List ScoredCandidate

abbrev threshold_auto_merge : ℕ
threshold_auto_merge = 900000

abbrev pub threshold_analyst_flag : ℕ
threshold_analyst_flag = 600000

abbrev pub has_building : Incoming → CandidateReport → Bool
has_building i c = is_some i.building_id && is_some c.building_id

abbrev pub has_gps : Incoming → CandidateReport → Bool
has_gps i c = is_some i.lat && is_some i.lng && is_some c.lat && is_some c.lng

abbrev pub has_image : Incoming → CandidateReport → Bool
has_image i c = has_text i.phash && has_text c.photo_phash

-- `round(n / d, 6)` where the quotient counts millionths: to the nearest, and to even at a tie.
unfoldable pub round_div : ℕ → ℕ → ℕ
round_div n d =
    if ltb (2 * (n % d)) d
    then n / d
    else if ltb d (2 * (n % d))
    then n / d + 1
    else n / d + (n / d) % 2

-- The weights 0.4, 0.3, 0.2 and 0.1, in tenths, of the signals that are available.
unfoldable pub total_weight : Bool → Bool → Bool → ℕ
total_weight b g i = 4 * int_of b + 3 * int_of g + 2 * int_of i + 1

unfoldable pub weighted_sum : Bool → Bool → Bool → ℕ → ℕ → ℕ → ℕ → ℕ
weighted_sum hb hg hi b g i c = 4 * (int_of hb * b) + 3 * (int_of hg * g) + 2 * (int_of hi * i) + c

-- `round(_composite(…), 6)`
unfoldable pub composite : Incoming → CandidateReport → ℕ → ℕ → ℕ → ℕ → ℕ
composite inc c b g i k =
    if has_building inc c || has_gps inc c
    then round_div (weighted_sum (has_building inc c) (has_gps inc c) (has_image inc c) b g i k)
        (total_weight (has_building inc c) (has_gps inc c) (has_image inc c))
    else 0

-- `scored.sort(key=…, reverse=True)`, which keeps the order of equal scores.
unfoldable pub insert_score : ScoredCandidate → List ScoredCandidate → List ScoredCandidate
insert_score x [] = x ∷ []
insert_score x (y ∷ ys) =
    if ltb x.composite_score y.composite_score then y ∷ insert_score x ys else x ∷ y ∷ ys

unfoldable pub sort_scores : List ScoredCandidate → List ScoredCandidate
sort_scores [] = []
sort_scores (x ∷ xs) = insert_score x (sort_scores xs)

-- The action for the best candidate.
unfoldable pub action_for : Incoming → ScoredCandidate → DuplicateAction
action_for inc best =
    if leb threshold_auto_merge best.composite_score
      && (has_building inc best.candidate && has_gps inc best.candidate)
    then DuplicateAction.auto_merge
    else if leb threshold_analyst_flag best.composite_score
    then DuplicateAction.analyst_flag
    else DuplicateAction.independent

abbrev shown_best : DuplicateAction → ScoredCandidate → Option ScoredCandidate
shown_best DuplicateAction.independent best = none
shown_best _ best = some best

abbrev pub result_of : Incoming → List ScoredCandidate → DuplicateResult
result_of inc [] = record {
  action = DuplicateAction.independent;
  best_score = 0;
  best_candidate = none;
  all_scores = [];
}
result_of inc (best ∷ rest) = record {
  action = action_for inc best;
  best_score = best.composite_score;
  best_candidate = shown_best (action_for inc best) best;
  all_scores = best ∷ rest;
}

module _ (distance : ℤ → ℤ → ℤ → ℤ → ℕ) where
  -- The body of the loop over the candidates.
  unfoldable pub score_candidate : Incoming → CandidateReport → ScoredCandidate
  score_candidate inc c =
      let b = building_signal inc.building_id c.building_id in
      let g = gps_signal distance inc.lat inc.lng c.lat c.lng in
      let i = image_signal inc.phash c.photo_phash in
      let k =
        category_signal inc.crisis_type inc.infrastructure_type c.crisis_type
          c.infrastructure_type in
      record {
        candidate = c;
        composite_score = composite inc c b g i k;
        building_score = b;
        gps_score = g;
        image_score = i;
        category_score = k;
      }

  unfoldable pub score : Incoming → List CandidateReport → DuplicateResult
  score inc candidates = result_of inc (sort_scores (map (score_candidate inc) candidates))
