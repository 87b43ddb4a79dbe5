-- ===== src/Tests/Scoring.antt =====
-- Scoring a report against the candidates of the small database.
use mathlib.Core.List.{Mem, Perm}
use matata_backend.Common.{false, ◌≤◌, [], ◌∷◌, ◌≡◌, refl, some, List, map, arith}
use matata_backend.Common.Table.{find}
use matata_backend.Models.{ReportStatus}
use matata_backend.Duplicate.Signals.{building_signal, gps_signal, image_signal, category_signal}
use matata_backend.Duplicate.Scorer.{
  insert_score, sort_scores, action_for, composite, round_div, total_weight, weighted_sum,
  DuplicateAction, CandidateReport, Incoming, ScoredCandidate, score, score_candidate,
}
use matata_backend.Duplicate.Scorer.Best.{Below, IsDescending}
use matata_backend.Duplicate.Scorer.Merge.{SameBuilding, Within}
use matata_backend.Duplicate.Scorer.Outcome.{score-best, score-auto_merge}
use matata_backend.Duplicate.Candidates.{
  load_candidates, building_rows, nearby_rows, select, insert_newest, newest_first, contains_id,
  candidate_of, eligible,
}
use matata_backend.Duplicate.Dispatch.{
  Event, runs, expires, seeded, gate_of, command, advance, interleave,
}
use matata_backend.Duplicate.Dispatch.Lost.{interleave_at_least_once}
use matata_backend.Duplicate.Dispatch.Once.{AllFinished, interleave_once}
use matata_backend.Duplicate.Task.{decided, score_pending, apply_action, score_report, incoming_of}
use matata_backend.Duplicate.Task.Queue.{Queued, score_report-queues}
use matata_backend.Tests.Data.{pending_report, small_database, taxicab, in_reach}

abbrev incoming : Incoming
incoming = incoming_of pending_report

abbrev candidates : List CandidateReport
candidates = load_candidates in_reach 172800 1 pending_report small_database.reports

score-best_example :
    let r = score taxicab incoming candidates in
    Perm r.all_scores (map (score_candidate taxicab incoming) candidates)
    × IsDescending r.all_scores
    × Below r.best_score r.all_scores
score-best_example = score-best taxicab incoming candidates

-- The verified report at the same place scores 1.0, and a merge review is recommended.
auto : (score taxicab incoming candidates).action ≡ DuplicateAction.auto_merge
unfolding score sort_scores insert_score action_for score_candidate composite round_div total_weight
    weighted_sum building_signal gps_signal image_signal category_signal load_candidates
    building_rows nearby_rows select insert_newest newest_first contains_id candidate_of eligible
auto = refl

pub queued :
    (score_report taxicab in_reach 172800 false 1 small_database).0.action
    ≡ decided DuplicateAction.auto_merge
unfolding score sort_scores insert_score action_for score_candidate composite round_div total_weight
    weighted_sum building_signal gps_signal image_signal category_signal load_candidates
    building_rows nearby_rows select insert_newest newest_first contains_id candidate_of eligible
    score_report score_pending apply_action find
queued = refl

score-auto_merge_example :
    (s : ScoredCandidate) × ((score taxicab incoming candidates).best_candidate ≡ some s)
    × Mem s.candidate candidates
    × SameBuilding incoming s.candidate
    × Within taxicab 333335 incoming s.candidate
score-auto_merge_example = score-auto_merge taxicab incoming candidates auto

score_report-queues_example :
    (pending_report.status ≡ ReportStatus.pending)
    × Queued taxicab in_reach 172800 1 pending_report small_database
        (score_report taxicab in_reach 172800 false 1 small_database)
unfolding find
score_report-queues_example =
    score_report-queues taxicab in_reach 172800 false 1 small_database pending_report refl queued

-- Two workers, the second of which counts down first and sends the job.
abbrev two_workers : List Event
two_workers = runs 1 ∷ runs 0 ∷ runs 0 ∷ runs 1 ∷ runs 0 ∷ []

two_workers_done : AllFinished (interleave two_workers (seeded 2)).workers
unfolding interleave advance command
two_workers_done = ground arith

interleave_once_example : (interleave two_workers (seeded 2)).sent ≡ 1
interleave_once_example =
    interleave_once 2 two_workers (omega arith) (ground arith) two_workers_done

-- The key expires after the first worker, and the second one still sends the job.
abbrev late : List Event
late = runs 0 ∷ expires ∷ runs 1 ∷ runs 1 ∷ runs 1 ∷ []

late_done : AllFinished (interleave late (gate_of 2 2)).workers
unfolding interleave advance command
late_done = ground arith

interleave_at_least_once_example : 1 ≤ (interleave late (gate_of 2 2)).sent
interleave_at_least_once_example =
    interleave_at_least_once 2 2 late (omega arith) (omega arith) late_done
