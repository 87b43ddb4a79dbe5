-- ===== src/Duplicate/Dispatch/Once.antt =====
-- The jobs that the gate sends, along any interleaving of the workers, with and without an expired key.
use matata_backend.Common.{ℕ, zero, suc, ◌+◌, ◌≤◌, ◌≡◌, ◌≢◌, refl, pos, some, List, [], ◌∷◌, arith}
use matata_backend.Duplicate.Dispatch.{
  Phase, to_decrement, to_delete, to_send, finished, Gate, phase_at, set_phase, command, advance,
  Event, runs, expires, interleave, seeded, waiting,
}

-- The workers that have yet to count down, and those that have yet to send.
abbrev pub counting : Phase → ℕ
counting to_decrement = 1
counting _ = 0

abbrev pub sending : Phase → ℕ
sending to_delete = 1
sending to_send = 1
sending _ = 0

abbrev pub total : (Phase → ℕ) → List Phase → ℕ
total f [] = 0
total f (p ∷ ps) = f p + total f ps

-- Before the last worker has counted down, the counter is the number of those left, and nothing is
-- sent; afterwards one job is sent or about to be.
abbrev Guarded : Gate → Type 0
Guarded g =
    (1 ≤ total counting g.workers
      → (g.pending_steps ≡ some (pos (total counting g.workers)))
        × (total sending g.workers + g.sent ≡ 0))
    × (total counting g.workers ≡ 0 → total sending g.workers + g.sent ≡ 1)

pub set_phase-total :
    (f : Phase → ℕ) (i : ℕ) (p q : Phase) (ps : List Phase)
    → phase_at i ps ≡ p
    → p ≢ finished
    → total f (set_phase i q ps) + f p ≡ total f ps + f q
set_phase-total f i p q [] e live = absurd (live (ground (arith, e)))
set_phase-total f zero p q (x ∷ ps) e live = rw e (omega arith)
set_phase-total f (suc i) p q (x ∷ ps) e live =
    let rest = set_phase-total f i p q ps e live in omega arith

command-Guarded :
    (i : ℕ) (p : Phase) (g : Gate) → phase_at i g.workers ≡ p → Guarded g → Guarded (command i p g)
unfolding command
command-Guarded i to_decrement g e (before, after) =
    let left =
      set_phase-total counting i to_decrement finished g.workers e
        (λ q. absurd (ground (arith, q))) in
    let counter : g.pending_steps ≡ some (pos (total counting g.workers)) =
      (before (omega arith)).0 in
    let c1 =
      set_phase-total counting i to_decrement to_delete g.workers e
        (λ q. absurd (ground (arith, q))) in
    let s1 =
      set_phase-total sending i to_decrement to_delete g.workers e
        (λ q. absurd (ground (arith, q))) in
    let s2 =
      set_phase-total sending i to_decrement finished g.workers e
        (λ q. absurd (ground (arith, q))) in
    rw counter (ground (arith, left, c1, s1, s2, before))
command-Guarded i to_delete g e (before, after) =
    let c =
      set_phase-total counting i to_delete to_send g.workers e (λ q. absurd (ground (arith, q))) in
    let s =
      set_phase-total sending i to_delete to_send g.workers e (λ q. absurd (ground (arith, q))) in
    let s' =
      set_phase-total sending i to_delete finished g.workers e (λ q. absurd (ground (arith, q))) in
    ground (arith, c, s, s', before, after)
command-Guarded i to_send g e (before, after) =
    let c =
      set_phase-total counting i to_send finished g.workers e (λ q. absurd (ground (arith, q))) in
    let s =
      set_phase-total sending i to_send finished g.workers e (λ q. absurd (ground (arith, q))) in
    ground (arith, c, s, before, after)
command-Guarded i finished g e v = v

-- The key lives as long as the schedule lasts.
abbrev pub NeverExpires : List Event → Type 0
NeverExpires [] = Unit
NeverExpires (e ∷ schedule) = (e ≢ expires) × NeverExpires schedule

interleave-Guarded :
    (schedule : List Event) (g : Gate)
    → NeverExpires schedule
    → Guarded g
    → Guarded (interleave schedule g)
unfolding interleave advance
interleave-Guarded [] g lives v = v
interleave-Guarded (runs i ∷ schedule) g lives v =
    interleave-Guarded schedule (advance (runs i) g) lives.1
      (command-Guarded i (phase_at i g.workers) g refl v)
interleave-Guarded (expires ∷ schedule) g lives v = absurd (lives.0 refl)

pub waiting-total : (n : ℕ) → (total counting (waiting n) ≡ n) × (total sending (waiting n) ≡ 0)
waiting-total zero = (refl, refl)
waiting-total (suc n) = let (c, s) = waiting-total n in (omega arith, omega arith)

-- Every worker has run all its commands.
abbrev pub AllFinished : List Phase → Type 0
AllFinished [] = Unit
AllFinished (p ∷ ps) = (p ≡ finished) × AllFinished ps

pub finished-total :
    (f : Phase → ℕ) (ps : List Phase) → f finished ≡ 0 → AllFinished ps → total f ps ≡ 0
finished-total f [] z h = refl
finished-total f (p ∷ ps) z h = let rest = finished-total f ps z h.1 in rw h.0 (omega arith)

seeded-Guarded : (steps : ℕ) → 1 ≤ steps → Guarded (seeded steps)
seeded-Guarded steps some_step =
    let (c, s) = waiting-total steps in (λ h. (rw c refl, omega arith), λ h. absurd (omega arith))

-- While its key lives, a report whose gate is seeded with its steps is sent to scoring at most once, in
-- any interleaving of the workers' commands.
interleave_at_most_once :
    (steps : ℕ) (schedule : List Event)
    → 1 ≤ steps
    → NeverExpires schedule
    → (interleave schedule (seeded steps)).sent ≤ 1
interleave_at_most_once steps schedule some_step lives =
    let (before, after) =
      interleave-Guarded schedule (seeded steps) lives (seeded-Guarded steps some_step) in
    ground (arith, before, after)

-- If a gate is seeded with exactly the number of its workers, and its key neither expires nor is set
-- again while they run, then the report has been sent to scoring once when all of them have finished, in
-- whatever order their commands ran.
pub interleave_once :
    (steps : ℕ) (schedule : List Event)
    → 1 ≤ steps
    → NeverExpires schedule
    → AllFinished (interleave schedule (seeded steps)).workers
    → (interleave schedule (seeded steps)).sent ≡ 1
interleave_once steps schedule some_step lives done =
    let g = interleave schedule (seeded steps) in
    let (before, after) =
      interleave-Guarded schedule (seeded steps) lives (seeded-Guarded steps some_step) in
    let none_counts = finished-total counting g.workers refl done in
    let none_sends = finished-total sending g.workers refl done in
    ground (arith, after, none_counts, none_sends)
