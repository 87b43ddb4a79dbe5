-- ===== src/Analyst/Accuracy/Log.antt =====
-- The history of the divergence threshold, and what a threshold means for the reports to come.
use native.Mathlib.Nat.{mul-le-mul_right, le_of_mul-le-mul_right}
use matata_backend.Common.{
  ℕ, zero, suc, ◌*◌, ◌≤◌, ◌<◌, ◌≡◌, refl, true, none, some, List, [], ◌∷◌, leb, Bool-cases,
  Option-cases, inl, inr, arith,
}
use matata_backend.Common.Lists.{length, take}
use matata_backend.Common.Sort.{filter}
use matata_backend.Models.{Report, Database}
use matata_backend.Ai.Priority.{Thresholds}
use matata_backend.Ai.Task.{ImageAnalysis, diverges}
use matata_backend.Analyst.Accuracy.{
  Calibration, CalibrationStore, AccuracySettings, history_max, is_high, rate, recommended,
  write_calibration, entry_of, calibrate, get_ai_accuracy, answered,
}

-- Each entry starts from the threshold that the entry before it set.
abbrev Linked : List Calibration → Type 0
Linked [] = Unit
Linked (e ∷ []) = Unit
Linked (e ∷ (f ∷ rest)) = (e.old_threshold ≡ some f.new_threshold) × Linked (f ∷ rest)

-- The newest entry is what the keys hold.
abbrev Headed : CalibrationStore → List Calibration → Type 0
Headed c [] = c.divergence_threshold ≡ none
Headed c (e ∷ rest) =
    (c.divergence_threshold ≡ some e.new_threshold) × (c.updated_at ≡ some e.timestamp)

-- The history explains the threshold: it has at most a hundred entries, each starts from the one before,
-- and the newest one set the threshold and its time.
abbrev pub IsExplained : CalibrationStore → Type 0
IsExplained c = (length c.history ≤ history_max) × Linked c.history × Headed c c.history

length-take : (n : ℕ) (xs : List Calibration) → length (take n xs) ≤ n
length-take zero xs = omega arith
length-take (suc n) [] = omega arith
length-take (suc n) (x ∷ xs) = omega (arith, length-take n xs)

take-Linked : (n : ℕ) (xs : List Calibration) → Linked xs → Linked (take n xs)
take-Linked zero xs h = tt
take-Linked (suc n) [] h = tt
take-Linked (suc zero) (x ∷ xs) h = tt
take-Linked (suc (suc n)) (x ∷ []) h = tt
take-Linked (suc (suc n)) (x ∷ (y ∷ ys)) h = (h.0, take-Linked (suc n) (y ∷ ys) h.1)

entry-Linked :
    (reachable now total : ℕ) (hc : ℕ × ℕ) (c : CalibrationStore) (history : List Calibration)
    → 6 ≤ reachable
    → Linked history
    → Headed c history
    → Linked (entry_of reachable now total hc c ∷ history)
entry-Linked reachable now total hc c [] up linked headed = tt
entry-Linked reachable now total hc c (f ∷ rest) up linked headed = (ground arith, linked)

write-IsExplained :
    (reachable now total : ℕ) (hc : ℕ × ℕ) (c : CalibrationStore)
    → 6 ≤ reachable
    → IsExplained c
    → IsExplained (write_calibration reachable (entry_of reachable now total hc c) c)
unfolding write_calibration
write-IsExplained reachable now total hc c up (short, linked, headed) =
    let e = entry_of reachable now total hc c in
    let a2 : answered reachable 2 ≡ true = ground arith in
    let a3 : answered reachable 3 ≡ true = ground arith in
    let a5 : answered reachable 5 ≡ true = ground arith in
    rw (write_calibration, a2, a3, a5)
      (
        length-take history_max (e ∷ c.history),
        take-Linked history_max (e ∷ c.history)
            (entry-Linked reachable now total hc c c.history up linked headed),
        (refl, refl),
      )

-- While Redis answers, the history keeps explaining the threshold, whether a call calibrates it or not.
pub get_ai_accuracy-IsExplained :
    (settings : AccuracySettings) (reachable now : ℕ) (db : Database) (c : CalibrationStore)
    → 6 ≤ reachable
    → IsExplained c
    → IsExplained (get_ai_accuracy settings reachable now db c).1
unfolding get_ai_accuracy calibrate
get_ai_accuracy-IsExplained settings reachable now db c up h =
    elim (Option-cases (rate (filter is_high db.feedback))) [
      | inl e ↦ rw (get_ai_accuracy, e) h
      | inr (hc, e) ↦ elim (Bool-cases (leb settings.min_sample hc.1)) [
        | inl enough ↦
            rw (get_ai_accuracy, e, enough)
              (write-IsExplained reachable now (length db.feedback) hc c up h)
        | inr few ↦ rw (get_ai_accuracy, e, few) h
      ]
    ]

scaled : (k p n q m : ℕ) → 0 < n → p * m ≤ q * n → k * n ≤ 100 * p → k * m ≤ 100 * q
scaled k p n q m pos le h =
    let first : k * n * m ≤ 100 * p * m = mul-le-mul_right m h in
    le_of_mul-le-mul_right {k = n} (grind arith) pos

recommended_mono : (p n q m : ℕ) → 0 < n → p * m ≤ q * n → recommended (p, n) ≤ recommended (q, m)
unfolding recommended
recommended_mono p n q m pos le = ground (arith, scaled 85 p n q m pos le, scaled 70 p n q m pos le)

-- A model that agrees less often with the analysts has no fewer reports flagged: a report that is
-- flagged under the threshold for a rate is flagged under the threshold for a lower rate.
pub recommended-diverges :
    (thresholds : Thresholds) (p n q m : ℕ) (r : Report) (a : ImageAnalysis)
    → 0 < n
    → p * m ≤ q * n
    → diverges thresholds (recommended (q, m)) r a ≡ true
    → diverges thresholds (recommended (p, n)) r a ≡ true
recommended-diverges thresholds p n q m r a pos le h =
    ground (arith, recommended_mono p n q m pos le)
