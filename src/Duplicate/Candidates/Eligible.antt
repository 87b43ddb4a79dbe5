-- ===== src/Duplicate/Candidates/Eligible.antt =====
-- The rows that `_load_candidates` selects.
use mathlib.Core.List.{Mem}
use matata_backend.Common.{
  ℕ, ℤ, ◌≡◌, refl, Bool, true, Option, none, some, [], ◌∷◌, ◌++◌, arith, Bool-cases, inl, inr, ltb,
  ◌-◌,
}
use matata_backend.Common.Lists.{
  length, take, All, All-weaken, All-append, All-take, All-mem, All-map,
}
use matata_backend.Common.Table.{Table}
use matata_backend.Models.{Report}
use matata_backend.Duplicate.Scorer.{CandidateReport}
use matata_backend.Duplicate.Candidates.{
  eligible, select, insert_newest, newest_first, candidate_of, building_rows, nearby_rows,
  load_candidates, max_candidates,
}

select-All {κ} :
    (P : ℕ × Report → Type κ) (p : ℕ × Report → Bool) (t : Table Report)
    → All P t
    → All (λ x. P x × (p x ≡ true)) (select p t)
unfolding select
select-All P p [] h = tt
select-All P p (x ∷ t) h = elim (Bool-cases (p x)) [
  | inl e ↦ rw e ((h.0, e), select-All P p t h.1)
  | inr e ↦ rw e (select-All P p t h.1)
]

insert_newest-All {κ} :
    (P : ℕ × Report → Type κ) (x : ℕ × Report) (t : Table Report)
    → P x
    → All P t
    → All P (insert_newest x t)
unfolding insert_newest
insert_newest-All P x [] p h = (p, tt)
insert_newest-All P (j, r) ((i, q) ∷ t) p h = elim (Bool-cases (ltb r.created_at q.created_at)) [
  | inl e ↦ rw e (h.0, insert_newest-All P (j, r) t p h.1)
  | inr e ↦ rw e (p, h)
]

newest_first-All {κ} :
    (P : ℕ × Report → Type κ) (t : Table Report) → All P t → All P (newest_first t)
unfolding newest_first
newest_first-All P [] h = tt
newest_first-All P (x ∷ t) h = insert_newest-All P x (newest_first t) h.0 (newest_first-All P t h.1)

module _ (near : ℤ → ℤ → ℤ → ℤ → Bool) (window : ℕ) (k created_at : ℕ) (t : Table Report) where
  -- A row that the queries may select.
  abbrev IsEligible : ℕ × Report → Type 0
  IsEligible x = Mem x t × (eligible window k created_at x ≡ true)

  -- The newest of the rows that pass a test which asks for an eligible row.
  select_newest :
      (n : ℕ) (p : ℕ × Report → Bool)
      → ((x : ℕ × Report) → p x ≡ true → eligible window k created_at x ≡ true)
      → All IsEligible (take n (newest_first (select p t)))
  select_newest n p h = All-take IsEligible n (newest_first (select p t)) (
      newest_first-All IsEligible (select p t) (
        All-weaken (λ x. Mem x t × (p x ≡ true)) IsEligible (select p t) (λ x q. (q.0, h x q.1))
          (select-All (λ x. Mem x t) p t (All-mem t))))

  building_rows-All : (b : Option ℕ) → All IsEligible (building_rows near window k b created_at t)
  unfolding building_rows
  building_rows-All none = tt
  building_rows-All (some b) = select_newest max_candidates _ (λ x h. ground arith)

  nearby_rows-All :
      (lat lng : Option ℤ) (rows : Table Report)
      → All IsEligible (nearby_rows near window k lat lng created_at rows t)
  unfolding nearby_rows
  nearby_rows-All (some lat) (some lng) rows =
      elim (Bool-cases (ltb (length rows) max_candidates)) [
        | inl e ↦ rw e (select_newest (max_candidates - length rows) _ (λ x h. ground arith))
        | inr e ↦ rw e tt
      ]
  nearby_rows-All (some lat) none rows = tt
  nearby_rows-All none lng rows = tt

-- A candidate is an eligible row of the table.
abbrev pub FromRow : ℕ → ℕ → ℕ → Table Report → CandidateReport → Type 0
FromRow window k created_at t c =
    (x : ℕ × Report) × Mem x t × (eligible window k created_at x ≡ true) × (c ≡ candidate_of x)

-- Every candidate is a row of the table, another than the scored report, that is not a duplicate and
-- was created in the time window.
pub load_candidates-All :
    (near : ℤ → ℤ → ℤ → ℤ → Bool) (window k : ℕ) (r : Report) (t : Table Report)
    → All (FromRow window k r.created_at t) (load_candidates near window k r t)
unfolding load_candidates
load_candidates-All near window k r t =
    let rows : Table Report = building_rows near window k r.building_id r.created_at t in
    let more : Table Report = nearby_rows near window k r.lat r.lng r.created_at rows t in
    All-map (FromRow window k r.created_at t) candidate_of (rows ++ more) (
      All-weaken (IsEligible near window k r.created_at t)
        (λ x. FromRow window k r.created_at t (candidate_of x)) (rows ++ more)
        (λ x h. (x, h.0, h.1, refl))
        (All-append (IsEligible near window k r.created_at t) rows more
          (building_rows-All near window k r.created_at t r.building_id)
          (nearby_rows-All near window k r.created_at t r.lat r.lng rows)))
