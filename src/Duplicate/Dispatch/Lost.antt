-- ===== src/Duplicate/Dispatch/Lost.antt =====
-- The jobs that the gate sends when its key may expire.
use matata_backend.Common.{
  ℕ, ◌+◌, ◌≤◌, ◌≡◌, ◌⊎◌, inl, inr, refl, ℤ, pos, negsuc, Option, none, some, List, [], ◌∷◌, arith,
}
use matata_backend.Duplicate.Dispatch.{
  Phase, to_decrement, to_delete, to_send, finished, Gate, phase_at, command, advance, Event, runs,
  expires, interleave, gate_of,
}
use matata_backend.Duplicate.Dispatch.Once.{
  counting, sending, total, set_phase-total, waiting-total, AllFinished, finished-total,
}

-- How many decrements a key takes before it is at zero.
abbrev left : Option ℤ → ℕ
left none = 0
left (some (pos n)) = n
left (some (negsuc n)) = 0

-- A job is sent or about to be, or there are as many workers to come as the key waits for.
abbrev Kept : Gate → Type 0
Kept g =
    (1 ≤ total sending g.workers + g.sent)
    ⊎ (1 ≤ total counting g.workers) × (left g.pending_steps ≤ total counting g.workers)

decrement-Kept :
    (i : ℕ) (o : Option ℤ) (g : Gate)
    → g.pending_steps ≡ o
    → phase_at i g.workers ≡ to_decrement
    → Kept g
    → Kept (command i to_decrement g)
unfolding command
decrement-Kept i o g e at kept =
    let c0 =
      set_phase-total counting i to_decrement finished g.workers at
        (λ q. absurd (ground (arith, q))) in
    let c1 =
      set_phase-total counting i to_decrement to_delete g.workers at
        (λ q. absurd (ground (arith, q))) in
    let s0 =
      set_phase-total sending i to_decrement finished g.workers at
        (λ q. absurd (ground (arith, q))) in
    let s1 =
      set_phase-total sending i to_decrement to_delete g.workers at
        (λ q. absurd (ground (arith, q))) in
    ground (arith, e, c0, c1, s0, s1, kept)

command-Kept :
    (i : ℕ) (p : Phase) (g : Gate) → phase_at i g.workers ≡ p → Kept g → Kept (command i p g)
unfolding command
command-Kept i to_decrement g at kept = decrement-Kept i g.pending_steps g refl at kept
command-Kept i to_delete g at kept =
    let c =
      set_phase-total counting i to_delete to_send g.workers at (λ q. absurd (ground (arith, q))) in
    let s =
      set_phase-total sending i to_delete to_send g.workers at (λ q. absurd (ground (arith, q))) in
    ground (arith, c, s, kept)
command-Kept i to_send g at kept =
    let c =
      set_phase-total counting i to_send finished g.workers at (λ q. absurd (ground (arith, q))) in
    let s =
      set_phase-total sending i to_send finished g.workers at (λ q. absurd (ground (arith, q))) in
    ground (arith, c, s, kept)
command-Kept i finished g at kept = kept

expire-Kept : (g : Gate) → Kept g → Kept (advance expires g)
unfolding advance
expire-Kept g (inl sent) = inl sent
expire-Kept g (inr (some_left, enough)) = inr (some_left, omega arith)

interleave-Kept : (schedule : List Event) (g : Gate) → Kept g → Kept (interleave schedule g)
unfolding interleave advance
interleave-Kept [] g kept = kept
interleave-Kept (runs i ∷ schedule) g kept =
    interleave-Kept schedule (advance (runs i) g)
      (command-Kept i (phase_at i g.workers) g refl kept)
interleave-Kept (expires ∷ schedule) g kept =
    interleave-Kept schedule (advance expires g) (expire-Kept g kept)

-- No report is lost: if a gate is set to at most the number of its workers and is not set again, then at
-- least one scoring job has been sent when all the workers have finished, in whatever order their commands
-- ran and whenever the key expired.
pub interleave_at_least_once :
    (steps workers : ℕ) (schedule : List Event)
    → 1 ≤ workers
    → steps ≤ workers
    → AllFinished (interleave schedule (gate_of steps workers)).workers
    → 1 ≤ (interleave schedule (gate_of steps workers)).sent
interleave_at_least_once steps workers schedule some_worker enough done =
    let g = interleave schedule (gate_of steps workers) in
    let (c, s) = waiting-total workers in
    let kept =
      interleave-Kept schedule (gate_of steps workers) (inr (omega (arith, c), omega (arith, c))) in
    let none_counts = finished-total counting g.workers refl done in
    let none_sends = finished-total sending g.workers refl done in
    ground (arith, kept, none_counts, none_sends)
