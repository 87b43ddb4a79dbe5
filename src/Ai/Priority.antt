-- ===== src/Ai/Priority.antt =====
-- The analysts' queue: `_compute_review_priority` and `_apply_priority_floor` of app/workers/ai_tasks.py.
-- Scores are millionths; the thresholds are settings of the deployment.
pub mod Routing
use matata_backend.Common.{
  ℕ, Bool, true, false, Option, none, some, ltb, leb, is_some, if◌then◌else◌,
}
use matata_backend.Models.{ReviewPriority, MedicalHelpNeeded}

pub record Thresholds : Type 0 where
  pub quality_critical : ℕ
  pub confidence_critical : ℕ
  pub confidence_high_priority : ℕ

-- `_PRIORITY_RANK`
abbrev pub priority_rank : ReviewPriority → ℕ
priority_rank ReviewPriority.low = 0
priority_rank ReviewPriority.normal = 1
priority_rank ReviewPriority.high = 2
priority_rank ReviewPriority.critical = 3

-- `score is not None and score < threshold`
abbrev pub is_below : Option ℕ → ℕ → Bool
is_below none threshold = false
is_below (some score) threshold = ltb score threshold

-- `score is not None and score >= threshold`
abbrev is_at_least : Option ℕ → ℕ → Bool
is_at_least none threshold = false
is_at_least (some score) threshold = leb threshold score

unfoldable pub compute_review_priority : Thresholds → Option ℕ → Option ℕ → Bool → ReviewPriority
compute_review_priority t ai_confidence ai_quality_score ai_divergence =
    if is_below ai_quality_score t.quality_critical
    then ReviewPriority.critical
    else if is_below ai_confidence t.confidence_critical
    then ReviewPriority.critical
    else if ai_divergence
    then ReviewPriority.high
    else if is_below ai_confidence t.confidence_high_priority
    then ReviewPriority.high
    else if is_at_least ai_confidence t.confidence_high_priority
    then ReviewPriority.low
    else ReviewPriority.normal

abbrev pub needs_urgent_help : Option MedicalHelpNeeded → Bool
needs_urgent_help none = false
needs_urgent_help (some MedicalHelpNeeded.urgent) = true
needs_urgent_help (some _) = false

-- The priority that the reporter's answers ask for.
abbrev pub floor : Option MedicalHelpNeeded → Option ℕ → ReviewPriority
floor medical_help_needed info_responded_at =
    if needs_urgent_help medical_help_needed
    then ReviewPriority.critical
    else if is_some info_responded_at
    then ReviewPriority.high
    else ReviewPriority.low

unfoldable pub apply_priority_floor :
    ReviewPriority → Option MedicalHelpNeeded → Option ℕ → ReviewPriority
apply_priority_floor priority medical_help_needed info_responded_at =
    let least = floor medical_help_needed info_responded_at in
    if ltb (priority_rank priority) (priority_rank least) then least else priority

-- The two, as the task composes them.
unfoldable pub review_priority :
    Thresholds → Option ℕ → Option ℕ → Bool → Option MedicalHelpNeeded → Option ℕ → ReviewPriority
review_priority t ai_confidence ai_quality_score ai_divergence medical_help_needed
      info_responded_at =
    apply_priority_floor (compute_review_priority t ai_confidence ai_quality_score ai_divergence)
      medical_help_needed info_responded_at
