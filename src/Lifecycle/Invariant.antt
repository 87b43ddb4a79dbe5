-- ===== src/Lifecycle/Invariant.antt =====
-- Well-formed report rows along a history.
use matata_backend.Common.{
  ℕ, ◌≤◌, ◌≡◌, ◌≢◌, refl, String, Option, none, some, List, [], ◌∷◌, inl, inr, arith,
}
use matata_backend.Common.Table.{find, AllRows}
use matata_backend.Models.{ReportStatus, Report, Database}
use matata_backend.Lifecycle.Step.{
  RowStep, decide, merge, adopt_photo, queue, flag, confirm, refuse, ask, answer, override, analyse,
  attach, locate, Steps, here, next,
}
use matata_backend.Lifecycle.Growth.{RowGrows}
use matata_backend.Submission.Create.{Submission}
use matata_backend.Submission.Create.Stored.{IsReportOf}
use matata_backend.Lifecycle.History.{
  Op, transition, reject, note, followup, score, photo, submit, purge_photos, Environment, run,
  AllAdmit, run-Grows,
}

-- The trust tier is 0, 1 or 2; a report that waits for a merge review names its possible primary;
-- and only a duplicate has a primary.
pub record RowOk (r : Report) : Type 0 where
  pub tier : r.reporter_trust_tier ≤ 2
  pub queued : r.status ≡ ReportStatus.pending_merge_review → r.possible_duplicate_of_id ≢ none
  pub merged : r.duplicate_of_id ≢ none → r.status ≡ ReportStatus.duplicate

RowStep-RowOk : {r r' : Report} → RowStep r r' → RowOk r → RowOk r'
RowStep-RowOk (decide s a e) v = ground arith
RowStep-RowOk (merge p e) v = ground arith
RowStep-RowOk (adopt_photo url e) v = ground arith
RowStep-RowOk (queue p n pending e) v = ground arith
RowStep-RowOk (flag p n pending e) v = ground arith
RowStep-RowOk (confirm p waits named e) v = ground arith
RowStep-RowOk (refuse waits e) v = ground arith
RowStep-RowOk (ask message now e) v = ground arith
RowStep-RowOk (answer body now e) v = ground arith
RowStep-RowOk (override s e) v = ground arith
RowStep-RowOk (analyse status phash quality confidence prediction divergence priority e) v =
    ground arith
RowStep-RowOk (attach url e) v = ground arith
RowStep-RowOk (locate building confidence e) v = ground arith

Steps-RowOk : {r r' : Report} → Steps r r' → RowOk r → RowOk r'
Steps-RowOk here v = v
Steps-RowOk (next p x) v = RowStep-RowOk x (Steps-RowOk p v)

RowStep-duplicate :
    {r r' : Report}
    → RowStep r r'
    → r.status ≡ ReportStatus.duplicate
    → r'.status ≡ ReportStatus.duplicate
RowStep-duplicate (decide s a e) d = ground arith
RowStep-duplicate (merge p e) d = ground arith
RowStep-duplicate (adopt_photo url e) d = ground arith
RowStep-duplicate (queue p n pending e) d = ground arith
RowStep-duplicate (flag p n pending e) d = ground arith
RowStep-duplicate (confirm p waits named e) d = ground arith
RowStep-duplicate (refuse waits e) d = ground arith
RowStep-duplicate (ask message now e) d = ground arith
RowStep-duplicate (answer body now e) d = ground arith
RowStep-duplicate (override s e) d = ground arith
RowStep-duplicate (analyse status phash quality confidence prediction divergence priority e) d =
    ground arith
RowStep-duplicate (attach url e) d = ground arith
RowStep-duplicate (locate building confidence e) d = ground arith

Steps-duplicate :
    {r r' : Report}
    → Steps r r'
    → r.status ≡ ReportStatus.duplicate
    → r'.status ≡ ReportStatus.duplicate
Steps-duplicate here d = d
Steps-duplicate (next p x) d = RowStep-duplicate x (Steps-duplicate p d)

-- What new reports have, and every step of a row keeps, is kept.
evolved :
    (P : Report → Type 0)
    → ((r s : Report) → Steps r s → P r → P s)
    → (o o' : Option Report) (s : Report) → ((r : Report) → o ≡ some r → P r)
    → RowGrows P o o'
    → o' ≡ some s
    → P s
evolved P step none o' s h (inl g) e = absurd (ground arith)
evolved P step none o' s h (inr (r, q, new, e', x)) e =
    let same : q ≡ s = ground arith in step r s (rw same at x) new
evolved P step (some r) o' s h (q, e', x) e =
    let same : q ≡ s = ground arith in step r s (rw same at x) (h r refl)

-- The trust tier in the token of every submission is at most 2.
abbrev AreTiered : List Op → Type 0
AreTiered [] = Unit
AreTiered (submit k rejection_id s token now counters ∷ ops) = (s.trust_tier ≤ 2) × AreTiered ops
AreTiered (op ∷ ops) = AreTiered ops

form-RowOk :
    (s : Submission) (token_hash : String) (now : ℕ) (r : Report)
    → s.trust_tier ≤ 2
    → IsReportOf s token_hash now r
    → RowOk r
form-RowOk s token_hash now r low form = record {
  tier = ground (arith, low, form.tier);
  queued = λ e. absurd (ground (arith, e, form.status));
  merged = λ e. absurd (e form.no_primary);
}

AllAdmit-RowOk : (env : Environment) (ops : List Op) → AreTiered ops → AllAdmit env RowOk ops
AllAdmit-RowOk env [] h = tt
AllAdmit-RowOk env (submit k rejection_id s token now counters ∷ ops) h =
    (λ r form. form-RowOk s (env.hash_token token) now r h.0 form, AllAdmit-RowOk env ops h.1)
AllAdmit-RowOk env (transition k s reason notes a ∷ ops) h = (tt, AllAdmit-RowOk env ops h)
AllAdmit-RowOk env (Op.merge p ids a ∷ ops) h = (tt, AllAdmit-RowOk env ops h)
AllAdmit-RowOk env (Op.confirm k a ∷ ops) h = (tt, AllAdmit-RowOk env ops h)
AllAdmit-RowOk env (reject k a ∷ ops) h = (tt, AllAdmit-RowOk env ops h)
AllAdmit-RowOk env (note k body a ∷ ops) h = (tt, AllAdmit-RowOk env ops h)
AllAdmit-RowOk env (Op.ask k message a now ∷ ops) h = (tt, AllAdmit-RowOk env ops h)
AllAdmit-RowOk env (followup k token body now ∷ ops) h = (tt, AllAdmit-RowOk env ops h)
AllAdmit-RowOk env (Op.override k s a ∷ ops) h = (tt, AllAdmit-RowOk env ops h)
AllAdmit-RowOk env (score violates k ∷ ops) h = (tt, AllAdmit-RowOk env ops h)
AllAdmit-RowOk env (Op.analyse k retries threshold answers ∷ ops) h = (tt, AllAdmit-RowOk env ops h)
AllAdmit-RowOk env (Op.locate k retries now fault ∷ ops) h = (tt, AllAdmit-RowOk env ops h)
AllAdmit-RowOk env (photo k image token ∷ ops) h = (tt, AllAdmit-RowOk env ops h)
AllAdmit-RowOk env (purge_photos delete_image days limit dry_run now ∷ ops) h =
    (tt, AllAdmit-RowOk env ops h)

AllAdmit-any : (env : Environment) (ops : List Op) → AllAdmit env (λ r. Unit) ops
AllAdmit-any env [] = tt
AllAdmit-any env (submit k rejection_id s token now counters ∷ ops) =
    (λ r form. tt, AllAdmit-any env ops)
AllAdmit-any env (transition k s reason notes a ∷ ops) = (tt, AllAdmit-any env ops)
AllAdmit-any env (Op.merge p ids a ∷ ops) = (tt, AllAdmit-any env ops)
AllAdmit-any env (Op.confirm k a ∷ ops) = (tt, AllAdmit-any env ops)
AllAdmit-any env (reject k a ∷ ops) = (tt, AllAdmit-any env ops)
AllAdmit-any env (note k body a ∷ ops) = (tt, AllAdmit-any env ops)
AllAdmit-any env (Op.ask k message a now ∷ ops) = (tt, AllAdmit-any env ops)
AllAdmit-any env (followup k token body now ∷ ops) = (tt, AllAdmit-any env ops)
AllAdmit-any env (Op.override k s a ∷ ops) = (tt, AllAdmit-any env ops)
AllAdmit-any env (score violates k ∷ ops) = (tt, AllAdmit-any env ops)
AllAdmit-any env (Op.analyse k retries threshold answers ∷ ops) = (tt, AllAdmit-any env ops)
AllAdmit-any env (Op.locate k retries now fault ∷ ops) = (tt, AllAdmit-any env ops)
AllAdmit-any env (photo k image token ∷ ops) = (tt, AllAdmit-any env ops)
AllAdmit-any env (purge_photos delete_image days limit dry_run now ∷ ops) =
    (tt, AllAdmit-any env ops)

module _ (env : Environment) (ops : List Op) (db : Database) where
  -- In any history of requests, submissions among them, of background tasks and of retention sweeps, if
  -- the rows are well-formed at the start and no submission's token has a trust tier above 2: every
  -- trust tier stays between 0 and 2, every report that waits for a merge review names its possible
  -- primary, and every report that has a primary is a duplicate.
  pub run-RowOk :
      AreTiered ops
      → AllRows (λ k r. RowOk r) db.reports
      → AllRows (λ k r. RowOk r) (run env ops db).reports
  run-RowOk tiered h k s found =
      evolved RowOk (λ r s x v. Steps-RowOk x v) (find k db.reports)
        (find k (run env ops db).reports) s (h k)
        (run-Grows env RowOk ops db (AllAdmit-RowOk env ops tiered) k) found

  run_kept :
      (P : Report → Type 0)
      → ((r s : Report) → Steps r s → P r → P s)
      → (k : ℕ) (r : Report) → find k db.reports ≡ some r
      → P r
      → (s : Report) × (find k (run env ops db).reports ≡ some s) × P s
  run_kept P step k r found v =
      let (s, e, x) : RowGrows (λ r. Unit) (some r) (find k (run env ops db).reports) =
        (rw found at (run-Grows env (λ r. Unit) ops db (AllAdmit-any env ops) k)) in
      (s, e, step r s x v)

  -- A duplicate stays a duplicate, whatever happens.
  pub run-duplicate :
      (k : ℕ) (r : Report)
      → find k db.reports ≡ some r
      → r.status ≡ ReportStatus.duplicate
      → (s : Report) × (find k (run env ops db).reports ≡ some s)
        × (s.status ≡ ReportStatus.duplicate)
  run-duplicate = run_kept (λ r. r.status ≡ ReportStatus.duplicate) (λ r s x d. Steps-duplicate x d)
