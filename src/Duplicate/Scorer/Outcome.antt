-- ===== src/Duplicate/Scorer/Outcome.antt =====
-- What `score` recommends, against the scores of all the candidates.
use mathlib.Core.List.{Mem, Perm}
use matata_backend.Common.{
  ℕ, ℤ, ◌≤◌, ◌<◌, ◌≡◌, ◌≢◌, ◌↔◌, refl, true, false, some, List, [], ◌∷◌, map, arith, ◌||◌,
}
use matata_backend.Common.Lists.{All, All-mem}
use matata_backend.Duplicate.Scorer.{
  DuplicateAction, CandidateReport, Incoming, ScoredCandidate, sort_scores, score_candidate,
  action_for, score, composite, result_of, has_building, has_gps, threshold_analyst_flag,
}
use matata_backend.Duplicate.Scorer.Best.{
  Below, IsDescending, All-sort, All-of_sort, sort-IsDescending, sort-perm,
}
use matata_backend.Duplicate.Scorer.Merge.{SameBuilding, Within, action-auto_merge}

module _ (distance : ℤ → ℤ → ℤ → ℤ → ℕ) (inc : Incoming) where
  result_of-best :
      (xs : List ScoredCandidate)
      → IsDescending xs
      → ((result_of inc xs).all_scores ≡ xs) × Below (result_of inc xs).best_score xs
  result_of-best [] d = (refl, tt)
  result_of-best (x ∷ xs) d = (refl, (omega arith, d.0))

  -- All candidates are scored, once each; the scores are listed in descending order, and none is above
  -- the best score.
  pub score-best :
      (cs : List CandidateReport)
      → let r = score distance inc cs in
        Perm r.all_scores (map (score_candidate distance inc) cs)
        × IsDescending r.all_scores
        × Below r.best_score r.all_scores
  unfolding score
  score-best cs =
      let xs : List ScoredCandidate = sort_scores (map (score_candidate distance inc) cs) in
      let (e, b) = result_of-best xs (sort-IsDescending (map (score_candidate distance inc) cs)) in
      rw e (sort-perm (map (score_candidate distance inc) cs), sort-IsDescending _, b)

  unlocated_independent :
      (c : CandidateReport)
      → (has_building inc c || has_gps inc c) ≡ false
      → (score_candidate distance inc c).composite_score ≡ 0
  unfolding score_candidate composite
  unlocated_independent c h = rw h refl

  result_of-independent :
      (xs : List ScoredCandidate)
      → IsDescending xs
      → ((result_of inc xs).action ≡ DuplicateAction.independent)
        ↔ All (λ s. s.composite_score < threshold_analyst_flag) xs
  unfolding action_for
  result_of-independent [] d = (λ e. tt, λ h. refl)
  result_of-independent (x ∷ xs) d = (
    λ e.
        let low : x.composite_score < threshold_analyst_flag = ground arith in
        (low, below xs low d.0),
    λ h. ground arith,
  )
    where
      below :
          (ys : List ScoredCandidate)
          → x.composite_score < threshold_analyst_flag
          → Below x.composite_score ys
          → All (λ s. s.composite_score < threshold_analyst_flag) ys
      below [] low b = tt
      below (y ∷ ys) low b = (omega arith, below ys low b.1)

  -- The report is left independent exactly when no candidate scores 0.6 or more.
  score-independent :
      (cs : List CandidateReport)
      → ((score distance inc cs).action ≡ DuplicateAction.independent)
        ↔ All
            (λ s. s.composite_score < threshold_analyst_flag)
            (map (score_candidate distance inc) cs)
  unfolding score
  score-independent cs =
      let xs : List ScoredCandidate = map (score_candidate distance inc) cs in
      let low = result_of-independent (sort_scores xs) (sort-IsDescending xs) in
      (
        λ e. All-of_sort (λ s. s.composite_score < threshold_analyst_flag) xs (low.0 e),
        λ h. low.1 (All-sort (λ s. s.composite_score < threshold_analyst_flag) xs h),
      )

module _ (distance : ℤ → ℤ → ℤ → ℤ → ℕ) (inc : Incoming) (P : CandidateReport → Type 0)
    (cs : List CandidateReport) (all : All P cs) where
  -- The entry is the score of a candidate of which `P` holds.
  abbrev ScoreOf : ScoredCandidate → Type 0
  ScoreOf s = P s.candidate × (s ≡ score_candidate distance inc s.candidate)

  scores_of :
      (ds : List CandidateReport) → All P ds → All ScoreOf (map (score_candidate distance inc) ds)
  unfolding score_candidate
  scores_of [] h = tt
  scores_of (d ∷ ds) h = ((h.0, refl), scores_of ds h.1)

  result_of-auto_merge :
      (xs : List ScoredCandidate)
      → All ScoreOf xs
      → (result_of inc xs).action ≡ DuplicateAction.auto_merge
      → (s : ScoredCandidate) × ((result_of inc xs).best_candidate ≡ some s)
        × P s.candidate
        × SameBuilding inc s.candidate
        × Within distance 333335 inc s.candidate
  result_of-auto_merge [] h e = absurd (ground arith)
  result_of-auto_merge (s ∷ xs) h e =
      let near = action-auto_merge distance inc s.candidate (rw (← h.0.1) e) in
      (s, rw e, h.0.0, near.0, near.1)

  pub auto_merge_of :
      (score distance inc cs).action ≡ DuplicateAction.auto_merge
      → (s : ScoredCandidate) × ((score distance inc cs).best_candidate ≡ some s)
        × P s.candidate
        × SameBuilding inc s.candidate
        × Within distance 333335 inc s.candidate
  unfolding score
  auto_merge_of e =
      result_of-auto_merge (sort_scores (map (score_candidate distance inc) cs))
        (All-sort ScoreOf (map (score_candidate distance inc) cs) (scores_of cs all)) e

  result_of-located :
      (xs : List ScoredCandidate)
      → All ScoreOf xs
      → (result_of inc xs).action ≢ DuplicateAction.independent
      → (s : ScoredCandidate) × ((result_of inc xs).best_candidate ≡ some s)
        × P s.candidate
        × (threshold_analyst_flag ≤ s.composite_score)
        × ((has_building inc s.candidate || has_gps inc s.candidate) ≡ true)
  unfolding action_for
  result_of-located [] h e = absurd (e refl)
  result_of-located (s ∷ xs) h e = (
    s,
    ground arith,
    h.0.0,
    ground arith,
    ground (arith, unlocated_independent distance inc s.candidate, h.0.1),
  )

  located_of :
      (score distance inc cs).action ≢ DuplicateAction.independent
      → (s : ScoredCandidate) × ((score distance inc cs).best_candidate ≡ some s)
        × P s.candidate
        × (threshold_analyst_flag ≤ s.composite_score)
        × ((has_building inc s.candidate || has_gps inc s.candidate) ≡ true)
  unfolding score
  located_of e =
      result_of-located (sort_scores (map (score_candidate distance inc) cs))
        (All-sort ScoreOf (map (score_candidate distance inc) cs) (scores_of cs all)) e

-- A merge review is recommended only against a candidate at the same building, with coordinates on
-- both reports that lie at most 16.67 m apart (a third of the 50 m of the decay).
pub score-auto_merge :
    (distance : ℤ → ℤ → ℤ → ℤ → ℕ) (inc : Incoming) (cs : List CandidateReport)
    → (score distance inc cs).action ≡ DuplicateAction.auto_merge
    → (s : ScoredCandidate) × ((score distance inc cs).best_candidate ≡ some s)
      × Mem s.candidate cs
      × SameBuilding inc s.candidate
      × Within distance 333335 inc s.candidate
score-auto_merge distance inc cs = auto_merge_of distance inc (λ c. Mem c cs) cs (All-mem cs)

-- A report is flagged or queued only against one of the candidates, with a score of 0.6 or more, and
-- only if both reports have a building or both have coordinates.
pub score-located :
    (distance : ℤ → ℤ → ℤ → ℤ → ℕ) (inc : Incoming) (cs : List CandidateReport)
    → (score distance inc cs).action ≢ DuplicateAction.independent
    → (s : ScoredCandidate) × ((score distance inc cs).best_candidate ≡ some s)
      × Mem s.candidate cs
      × (threshold_analyst_flag ≤ s.composite_score)
      × ((has_building inc s.candidate || has_gps inc s.candidate) ≡ true)
score-located distance inc cs = located_of distance inc (λ c. Mem c cs) cs (All-mem cs)
