-- ===== src/Duplicate/Dispatch.antt =====
-- The gate of app/workers/duplicate_dispatch.py: the workers that handle a report count down a number in
-- Redis, and the one that reaches zero sends the scoring job. Each command of
-- `mark_step_done_and_maybe_dispatch` is atomic, but the commands of several workers interleave, and
-- the key may expire in between: it is set for an hour. A Redis that cannot be reached, which the source
-- only logs, is not modelled, and neither is a second seed while workers of the first are under way.
pub mod Once
pub mod Lost
use matata_backend.Common.{
  ℕ, zero, suc, ◌+◌, ◌-◌, ℤ, pos, negsuc, Option, none, some, List, [], ◌∷◌, ◌==◌, if◌then◌else◌,
}

-- The next command of a worker: `decr`, `delete`, `send_task`, or none.
pub data Phase : Type 0 where
  to_decrement to_delete to_send finished : Phase

-- The counter of the report, the workers that handle it, and the jobs that were sent for it.
pub record Gate : Type 0 where
  pub pending_steps : Option ℤ
  pub workers : List Phase
  pub sent : ℕ

-- DECR: a missing counter starts from 0.
abbrev decremented : Option ℤ → ℤ
decremented none = negsuc 0
decremented (some (pos n)) = if n == 0 then negsuc 0 else pos (n - 1)
decremented (some (negsuc n)) = negsuc (n + 1)

-- `if remaining <= 0`
abbrev after_decrement : ℤ → Phase
after_decrement (pos n) = if n == 0 then to_delete else finished
after_decrement (negsuc n) = to_delete

abbrev pub phase_at : ℕ → List Phase → Phase
phase_at i [] = finished
phase_at zero (p ∷ ps) = p
phase_at (suc i) (p ∷ ps) = phase_at i ps

abbrev pub set_phase : ℕ → Phase → List Phase → List Phase
set_phase i q [] = []
set_phase zero q (p ∷ ps) = q ∷ ps
set_phase (suc i) q (p ∷ ps) = p ∷ set_phase i q ps

-- One command of a worker that is at this phase.
unfoldable pub command : ℕ → Phase → Gate → Gate
command i to_decrement g =
    let remaining = decremented g.pending_steps in
    record g {
      pending_steps = some remaining;
      workers = set_phase i (after_decrement remaining) g.workers;
    }
command i to_delete g = record g { pending_steps = none; workers = set_phase i to_send g.workers }
command i to_send g = record g { workers = set_phase i finished g.workers; sent = g.sent + 1 }
command i finished g = g

-- What happens to a gate: the worker of this number runs its next command, or the key expires.
pub data Event : Type 0 where
  runs : ℕ → Event
  expires : Event

unfoldable pub advance : Event → Gate → Gate
advance (runs i) g = command i (phase_at i g.workers) g
advance expires g = record g { pending_steps = none }

-- The events of a schedule, in its order.
unfoldable pub interleave : List Event → Gate → Gate
interleave [] g = g
interleave (e ∷ schedule) g = interleave schedule (advance e g)

abbrev waiting : ℕ → List Phase
waiting zero = []
waiting (suc n) = to_decrement ∷ waiting n

-- A gate whose key is set to a number of steps, and its workers.
abbrev pub gate_of : ℕ → ℕ → Gate
gate_of steps workers = record {
  pending_steps = some (pos steps);
  workers = waiting workers;
  sent = 0;
}

-- A report whose gate is seeded with the number of its steps, one worker for each.
abbrev pub seeded : ℕ → Gate
seeded steps = gate_of steps steps
