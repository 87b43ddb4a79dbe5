-- ===== src/Reconciliation/Seeds.antt =====
-- What the sweep sends, against the gate of duplicate scoring.
use matata_backend.Common.{ℕ, ◌+◌, ◌≤◌, ◌≡◌, Bool, true, false, List, [], ◌∷◌}
use matata_backend.Duplicate.Dispatch.{Event, gate_of, interleave}
use matata_backend.Duplicate.Dispatch.Once.{AllFinished}
use matata_backend.Reconciliation.{
  Stuck, Command, seed, match_building, process_report_image, score_report,
}

-- How many tasks of the commands tell the gate.
unfoldable pub told : List Command → ℕ
told [] = 0
told (seed k n ∷ cs) = told cs
told (match_building k ∷ cs) = told cs + 1
told (process_report_image k ∷ cs) = told cs + 1
told (score_report k ∷ cs) = told cs

-- The gate that the commands of a report leave is seeded with one step for each task that tells it, and
-- is not touched if scoring is sent directly or nothing is.
abbrev pub IsSeeded : List Command → Type 0
IsSeeded (seed k n ∷ cs) = (n ≡ told cs) × (1 ≤ n)
IsSeeded (score_report k ∷ cs) = cs ≡ []
IsSeeded [] = Unit
IsSeeded _ = ⊥

abbrev stuck_at : ℕ → Bool → Bool → Bool → Stuck
stuck_at k gis ai dedup = record { id = k; needs_gis = gis; needs_ai = ai; needs_dedup = dedup }

-- How many scoring jobs a report is sent, when its gate is set to the number of the seed, and the workers
-- that its commands start have run in the order of a schedule.
abbrev pub scoring_jobs : List Command → List Event → ℕ
scoring_jobs [] schedule = 0
scoring_jobs (score_report k ∷ cs) schedule = 1
scoring_jobs (seed k n ∷ cs) schedule = (interleave schedule (gate_of n (told cs))).sent
scoring_jobs (c ∷ cs) schedule = 0

abbrev AllDone : List Command → List Event → Type 0
AllDone (seed k n ∷ cs) schedule = AllFinished (interleave schedule (gate_of n (told cs))).workers
AllDone _ schedule = Unit

abbrev is_driven : List Command → Bool
is_driven [] = false
is_driven (c ∷ cs) = true
