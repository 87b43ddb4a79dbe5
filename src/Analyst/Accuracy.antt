-- ===== src/Analyst/Accuracy.antt =====
-- The calibration of the divergence threshold: `get_ai_accuracy` of app/services/analyst_service.py. A
-- rate is a fraction; its rounding to four digits in the answer is left out. Redis answers a number of
-- commands and then fails, which the code catches.
pub mod Log
use matata_backend.Common.{
  ℕ, ◌+◌, ◌-◌, ◌*◌, ◌/◌, String, Bool, true, false, ◌&&◌, Option, none, some, List, [], ◌∷◌, ltb,
  leb, ◌==◌, ◌same_as◌, if◌then◌else◌,
}
use matata_backend.Common.Lists.{length, take}
use matata_backend.Common.Sort.{filter}
use matata_backend.Models.{AiFeedback, Database}

-- An entry of the calibration history.
pub record Calibration : Type 0 where
  pub timestamp : ℕ
  pub old_threshold : Option ℕ
  pub new_threshold : ℕ
  pub feedback_n : ℕ
  pub hc_n : ℕ
  pub hc_agreement_rate : ℕ × ℕ

-- What Redis holds: `crisismap:ai:…`. The newest entry of the history comes first.
pub record CalibrationStore : Type 0 where
  pub divergence_threshold : Option ℕ
  pub updated_at : Option ℕ
  pub history : List Calibration

-- `_AI_CALIBRATION_HISTORY_MAX`
abbrev pub history_max : ℕ
history_max = 100

-- `AI_DIVERGENCE_MIN_SAMPLE` and `AI_DIVERGENCE_STALENESS_DAYS`
pub record AccuracySettings : Type 0 where
  pub min_sample : ℕ
  pub staleness_days : ℕ

pub record FeedbackTypeBreakdown : Type 0 where
  pub count : ℕ
  pub agreement_rate : Option (ℕ × ℕ)

pub record AiAccuracyResponse : Type 0 where
  pub total_feedback : ℕ
  pub agreement_rate : Option (ℕ × ℕ)
  pub high_confidence_agreement_rate : Option (ℕ × ℕ)
  pub avg_ai_confidence : Option (ℕ × ℕ)
  pub by_feedback_type : List (String × FeedbackTypeBreakdown)
  pub recommended_divergence_threshold : Option ℕ
  pub high_confidence_feedback_count : ℕ
  pub min_sample_for_calibration : ℕ
  pub threshold_updated_at : Option ℕ
  pub threshold_is_stale : Bool

abbrev agrees : AiFeedback → Bool
agrees f = elim f.is_agreement [ none ↦ false | some b ↦ b ]

-- `f.ai_confidence and f.ai_confidence > 0.7`
abbrev pub is_high : AiFeedback → Bool
is_high f = elim f.ai_confidence [ none ↦ false | some c ↦ ltb 700000 c ]

-- `len(part) / len(whole) if whole else None`
abbrev pub rate : List AiFeedback → Option (ℕ × ℕ)
rate [] = none
rate (f ∷ fs) = some (length (filter agrees (f ∷ fs)), length (f ∷ fs))

-- The confidences that are there, with their number.
unfoldable pub confidence_sum : List AiFeedback → ℕ × ℕ
confidence_sum [] = (0, 0)
confidence_sum (f ∷ fs) =
    let (total, n) = confidence_sum fs in
    elim f.ai_confidence [ none ↦ (total, n) | some c ↦ (c + total, n + 1) ]

abbrev average : ℕ × ℕ → Option (ℕ × ℕ)
average (total, n) = if n == 0 then none else some (total, n)

-- `FEEDBACK_TYPES`
abbrev feedback_types : List String
feedback_types = "verify" ∷ "reject" ∷ "severity_override" ∷ []

abbrev of_type : String → List AiFeedback → List AiFeedback
of_type t fs = filter (λ f. f.feedback_type same_as t) fs

abbrev breakdown : String → List AiFeedback → FeedbackTypeBreakdown
breakdown t fs = record { count = length (of_type t fs); agreement_rate = rate (of_type t fs) }

unfoldable pub by_type : List String → List AiFeedback → List (String × FeedbackTypeBreakdown)
by_type [] fs = []
by_type (t ∷ ts) fs = (t, breakdown t fs) ∷ by_type ts fs

-- The thresholds for a rate of at least 0.85, of at least 0.70, and of less.
unfoldable pub recommended : ℕ × ℕ → ℕ
recommended (agreements, n) =
    if leb (85 * n) (100 * agreements)
    then 700000
    else if leb (70 * n) (100 * agreements)
    then 600000
    else 500000

abbrev recommendation : Option (ℕ × ℕ) → Option ℕ
recommendation none = none
recommendation (some r) = some (recommended r)

-- `(now - updated_at).days > staleness_days`
abbrev is_stale : AccuracySettings → ℕ → Option ℕ → Bool
is_stale settings now none = false
is_stale settings now (some t) = ltb settings.staleness_days ((now - t) / 86400)

-- The `i`-th command of the call, from 0, is answered.
abbrev pub answered : ℕ → ℕ → Bool
answered reachable i = ltb i reachable

-- `set`, `set`, `lpush` and `ltrim`, as far as they are answered.
unfoldable pub write_calibration : ℕ → Calibration → CalibrationStore → CalibrationStore
write_calibration reachable entry c = record {
  divergence_threshold =
      if answered reachable 2 then some entry.new_threshold else c.divergence_threshold;
  updated_at = if answered reachable 3 then some entry.timestamp else c.updated_at;
  history =
      if answered reachable 5
      then take history_max (entry ∷ c.history)
      else if answered reachable 4
      then entry ∷ c.history
      else c.history;
}

abbrev pub entry_of : ℕ → ℕ → ℕ → ℕ × ℕ → CalibrationStore → Calibration
entry_of reachable now total hc c = record {
  timestamp = now;
  old_threshold = if answered reachable 1 then c.divergence_threshold else none;
  new_threshold = recommended hc;
  feedback_n = total;
  hc_n = hc.1;
  hc_agreement_rate = hc;
}

-- The threshold is calibrated if the sample of confident predictions is large enough.
unfoldable pub calibrate :
    AccuracySettings → ℕ → ℕ → ℕ → Option (ℕ × ℕ) → CalibrationStore → CalibrationStore
calibrate settings reachable now total none c = c
calibrate settings reachable now total (some hc) c =
    if leb settings.min_sample hc.1
    then write_calibration reachable (entry_of reachable now total hc c) c
    else c

-- A calibration that raises nowhere is what the answer shows.
abbrev was_calibrated : AccuracySettings → ℕ → Option (ℕ × ℕ) → Bool
was_calibrated settings reachable none = false
was_calibrated settings reachable (some hc) = leb settings.min_sample hc.1 && answered reachable 5

unfoldable pub get_ai_accuracy :
    AccuracySettings → ℕ → ℕ → Database → CalibrationStore → AiAccuracyResponse × CalibrationStore
get_ai_accuracy settings reachable now db c =
    let fs = db.feedback in
    let hc = rate (filter is_high fs) in
    let read = if answered reachable 0 then c.updated_at else none in
    let shown = if was_calibrated settings reachable hc then some now else read in
    (
      record {
        total_feedback = length fs;
        agreement_rate = rate fs;
        high_confidence_agreement_rate = hc;
        avg_ai_confidence = average (confidence_sum fs);
        by_feedback_type = elim fs [ [] ↦ [] | f ∷ rest ↦ by_type feedback_types (f ∷ rest) ];
        recommended_divergence_threshold = recommendation hc;
        high_confidence_feedback_count = length (filter is_high fs);
        min_sample_for_calibration = settings.min_sample;
        threshold_updated_at = shown;
        threshold_is_stale =
            if was_calibrated settings reachable hc then false else is_stale settings now read;
      },
      calibrate settings reachable now (length fs) hc c,
    )
