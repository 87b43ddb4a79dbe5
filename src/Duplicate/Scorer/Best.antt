-- ===== src/Duplicate/Scorer/Best.antt =====
-- The order of the scores in the result of `score`.
use mathlib.Core.List.{Perm}
use mathlib.Core.List.Perm
use matata_backend.Common.{ℕ, ◌≤◌, List, [], ◌∷◌, arith, Bool-cases, inl, inr, ltb}
use matata_backend.Common.Lists.{All}
use matata_backend.Duplicate.Scorer.{ScoredCandidate, insert_score, sort_scores}

All-insert {κ} :
    (P : ScoredCandidate → Type κ) (x : ScoredCandidate) (xs : List ScoredCandidate)
    → P x
    → All P xs
    → All P (insert_score x xs)
unfolding insert_score
All-insert P x [] p h = (p, tt)
All-insert P x (y ∷ ys) p h = elim (Bool-cases (ltb x.composite_score y.composite_score)) [
  | inl e ↦ rw e (h.0, All-insert P x ys p h.1)
  | inr e ↦ rw e (p, h)
]

pub All-sort {κ} :
    (P : ScoredCandidate → Type κ) (xs : List ScoredCandidate) → All P xs → All P (sort_scores xs)
unfolding sort_scores
All-sort P [] h = h
All-sort P (x ∷ xs) h = All-insert P x (sort_scores xs) h.0 (All-sort P xs h.1)

-- Each score is at most the one before it.
abbrev pub Below : ℕ → List ScoredCandidate → Type 0
Below n xs = All (λ s. s.composite_score ≤ n) xs

abbrev pub IsDescending : List ScoredCandidate → Type 0
IsDescending [] = Unit
IsDescending (x ∷ xs) = Below x.composite_score xs × IsDescending xs

Below-le : (m n : ℕ) (xs : List ScoredCandidate) → m ≤ n → Below m xs → Below n xs
Below-le m n [] h b = tt
Below-le m n (x ∷ xs) h b = (omega arith, Below-le m n xs h b.1)

insert-IsDescending :
    (x : ScoredCandidate) (xs : List ScoredCandidate)
    → IsDescending xs
    → IsDescending (insert_score x xs)
unfolding insert_score
insert-IsDescending x [] d = (tt, tt)
insert-IsDescending x (y ∷ ys) d = elim (Bool-cases (ltb x.composite_score y.composite_score)) [
  | inl e ↦ rw e (
    All-insert (λ s. s.composite_score ≤ y.composite_score) x ys (ground arith) d.0,
    insert-IsDescending x ys d.1,
  )
  | inr e ↦
      rw e ((ground arith, Below-le y.composite_score x.composite_score ys (ground arith) d.0), d)
]

pub sort-IsDescending : (xs : List ScoredCandidate) → IsDescending (sort_scores xs)
unfolding sort_scores
sort-IsDescending [] = tt
sort-IsDescending (x ∷ xs) = insert-IsDescending x (sort_scores xs) (sort-IsDescending xs)

insert-perm : (x : ScoredCandidate) (xs : List ScoredCandidate) → Perm (insert_score x xs) (x ∷ xs)
unfolding insert_score
insert-perm x [] = Perm.refl (x ∷ [])
insert-perm x (y ∷ ys) = elim (Bool-cases (ltb x.composite_score y.composite_score)) [
  | inl e ↦ rw e (Perm.trans (Perm.cons y (insert-perm x ys)) (Perm.swap x y ys))
  | inr e ↦ rw e (Perm.refl (x ∷ y ∷ ys))
]

pub sort-perm : (xs : List ScoredCandidate) → Perm (sort_scores xs) xs
unfolding sort_scores
sort-perm [] = Perm.refl []
sort-perm (x ∷ xs) = Perm.trans (insert-perm x (sort_scores xs)) (Perm.cons x (sort-perm xs))

All-of_insert {κ} :
    (P : ScoredCandidate → Type κ) (x : ScoredCandidate) (xs : List ScoredCandidate)
    → All P (insert_score x xs)
    → P x × All P xs
unfolding insert_score
All-of_insert P x [] h = (h.0, tt)
All-of_insert P x (y ∷ ys) h = elim (Bool-cases (ltb x.composite_score y.composite_score)) [
  | inl e ↦ let g = rw e at h in let (p, ps) = All-of_insert P x ys g.1 in (p, (g.0, ps))
  | inr e ↦ rw e at h
]

pub All-of_sort {κ} :
    (P : ScoredCandidate → Type κ) (xs : List ScoredCandidate) → All P (sort_scores xs) → All P xs
unfolding sort_scores
All-of_sort P [] h = h
All-of_sort P (x ∷ xs) h =
    let (p, ps) = All-of_insert P x (sort_scores xs) h in (p, All-of_sort P xs ps)
