-- ===== src/Ai/Priority/Routing.antt =====
-- The priority against the answers of the reporter and of the model.
use matata_backend.Common.{ℕ, max, ◌≤◌, ◌≡◌, Bool, Option, some, arith}
use matata_backend.Models.{ReviewPriority, MedicalHelpNeeded}
use matata_backend.Ai.Priority.{
  Thresholds, priority_rank, compute_review_priority, floor, apply_priority_floor, review_priority,
}

-- The reporter's answers only raise a priority: urgent medical help makes it critical, and it is the
-- higher of the two otherwise.
pub apply_priority_floor-max :
    (p : ReviewPriority) (help : Option MedicalHelpNeeded) (responded : Option ℕ)
    → priority_rank (apply_priority_floor p help responded)
      ≡ max (priority_rank p) (priority_rank (floor help responded))
unfolding apply_priority_floor
apply_priority_floor-max p help responded = ground arith

-- A model that is less confident never makes a report less urgent, all else being equal.
pub review_priority-antitone :
    (t : Thresholds) (c c' : ℕ) (quality : Option ℕ) (divergence : Bool)
    (help : Option MedicalHelpNeeded) (responded : Option ℕ)
    → c ≤ c'
    → priority_rank (review_priority t (some c') quality divergence help responded)
      ≤ priority_rank (review_priority t (some c) quality divergence help responded)
unfolding review_priority apply_priority_floor compute_review_priority
review_priority-antitone t c c' quality divergence help responded le = ground arith
