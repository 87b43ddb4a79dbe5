-- ===== src/Common/Sort.antt =====
-- Sorting and paging, for `ORDER BY`, `OFFSET` and `LIMIT`. Rows that the order does not tell apart
-- keep the table's order, where a database may give any.
use Prim.Native.Nat.{ℕ, zero, suc, ◌+◌, ◌-◌, ◌*◌, ◌≤◌}
use mathlib.Core.Path.{◌≡◌, refl, sym, ap, ◌∙◌}
use mathlib.Core.Bool.{Bool, true, false}
use mathlib.Core.Logic.{◌⊎◌, inl, inr}
use mathlib.Core.List.{List, [], ◌∷◌, ◌++◌, Perm, Mem, mem-cons_self, mem-cons_of_mem}
use mathlib.Core.List.Perm
use native.Mathlib.Omega.{arith}
use matata_backend.Common.Tests.{if◌then◌else◌, Bool-cases}
use matata_backend.Common.Lists.{length, take, All, All-weaken}

module _ {ℓ} {A : Type ℓ} where
  unfoldable pub insert : (A → A → Bool) → A → List A → List A
  insert before x [] = x ∷ []
  insert before x (y ∷ ys) = if before x y then x ∷ y ∷ ys else y ∷ insert before x ys

  unfoldable pub sort_by : (A → A → Bool) → List A → List A
  sort_by before [] = []
  sort_by before (x ∷ xs) = insert before x (sort_by before xs)

  abbrev drop : ℕ → List A → List A
  drop zero xs = xs
  drop (suc n) [] = []
  drop (suc n) (x ∷ xs) = drop n xs

  -- `WHERE`
  unfoldable pub filter : (A → Bool) → List A → List A
  filter p [] = []
  filter p (x ∷ xs) = let rest = filter p xs in if p x then x ∷ rest else rest

  abbrev pub IsSorted : (A → A → Bool) → List A → Type ℓ
  IsSorted before [] = Unit
  IsSorted before (x ∷ xs) = All (λ y. before x y ≡ true) xs × IsSorted before xs

  insert-perm : (before : A → A → Bool) (x : A) (ys : List A) → Perm (insert before x ys) (x ∷ ys)
  unfolding insert
  insert-perm before x [] = Perm.refl (x ∷ [])
  insert-perm before x (y ∷ ys) = elim (Bool-cases (before x y)) [
    | inl e ↦ rw (insert, e) (Perm.refl (x ∷ y ∷ ys))
    | inr e ↦ rw (insert, e) (Perm.trans (Perm.cons y (insert-perm before x ys)) (Perm.swap x y ys))
  ]

  pub sort_by-perm : (before : A → A → Bool) (xs : List A) → Perm (sort_by before xs) xs
  unfolding sort_by
  sort_by-perm before [] = Perm.refl []
  sort_by-perm before (x ∷ xs) =
      Perm.trans (insert-perm before x (sort_by before xs)) (Perm.cons x (sort_by-perm before xs))

  insert-All {κ} :
      (P : A → Type κ) (before : A → A → Bool) (x : A) (ys : List A)
      → P x
      → All P ys
      → All P (insert before x ys)
  unfolding insert
  insert-All P before x [] p h = (p, tt)
  insert-All P before x (y ∷ ys) p h = elim (Bool-cases (before x y)) [
    | inl e ↦ rw (insert, e) (p, h)
    | inr e ↦ rw (insert, e) (h.0, insert-All P before x ys p h.1)
  ]

  insert-All_inv {κ} :
      (P : A → Type κ) (before : A → A → Bool) (x : A) (ys : List A)
      → All P (insert before x ys)
      → P x × All P ys
  unfolding insert
  insert-All_inv P before x [] h = h
  insert-All_inv P before x (y ∷ ys) h = elim (Bool-cases (before x y)) [
    | inl e ↦ rw (insert, e) at h
    | inr e ↦
        let h' : P y × All P (insert before x ys) = rw (insert, e) at h in
        let (p, q) = insert-All_inv P before x ys h'.1 in (p, (h'.0, q))
  ]

  pub sort_by-All {κ} :
      (P : A → Type κ) (before : A → A → Bool) (xs : List A) → All P xs → All P (sort_by before xs)
  unfolding sort_by
  sort_by-All P before [] h = tt
  sort_by-All P before (x ∷ xs) h =
      insert-All P before x (sort_by before xs) h.0 (sort_by-All P before xs h.1)

  pub sort_by-All_inv {κ} :
      (P : A → Type κ) (before : A → A → Bool) (xs : List A) → All P (sort_by before xs) → All P xs
  unfolding sort_by
  sort_by-All_inv P before [] h = tt
  sort_by-All_inv P before (x ∷ xs) h =
      let (p, q) = insert-All_inv P before x (sort_by before xs) h in
      (p, sort_by-All_inv P before xs q)

  pub filter-All {κ} :
      (P : A → Type κ) (p : A → Bool) (xs : List A)
      → All P xs
      → All (λ x. P x × (p x ≡ true)) (filter p xs)
  unfolding filter
  filter-All P p [] h = tt
  filter-All P p (x ∷ xs) h = elim (Bool-cases (p x)) [
    | inl e ↦ rw (filter, e) ((h.0, e), filter-All P p xs h.1)
    | inr e ↦ rw (filter, e) (filter-All P p xs h.1)
  ]

  pub filter-All_inv {κ} :
      (P : A → Type κ) (p : A → Bool) (xs : List A)
      → ((x : A) → p x ≡ false → P x)
      → All P (filter p xs)
      → All P xs
  unfolding filter
  filter-All_inv P p [] out h = tt
  filter-All_inv P p (x ∷ xs) out h = elim (Bool-cases (p x)) [
    | inl e ↦
        let h' : P x × All P (filter p xs) = rw (filter, e) at h in
        (h'.0, filter-All_inv P p xs out h'.1)
    | inr e ↦ (out x e, filter-All_inv P p xs out (rw (filter, e) at h))
  ]

  -- Every row is selected, or fails the test.
  pub filter-mem : (p : A → Bool) (xs : List A) → All (λ x. Mem x (filter p xs) ⊎ (p x ≡ false)) xs
  unfolding filter
  filter-mem p [] = tt
  filter-mem p (x ∷ xs) = elim (Bool-cases (p x)) [
    | inl e ↦
        let selected : filter p (x ∷ xs) ≡ x ∷ filter p xs = ground (arith, e) in
        (
          inl (rw (selected) mem-cons_self),
          All-weaken (λ y. Mem y (filter p xs) ⊎ (p y ≡ false))
              (λ y. Mem y (filter p (x ∷ xs)) ⊎ (p y ≡ false)) xs
              (λ y h. elim h [ inl m ↦ inl (rw (selected) (mem-cons_of_mem x m)) | inr f ↦ inr f ])
              (filter-mem p xs),
        )
    | inr e ↦
        let passed : filter p (x ∷ xs) ≡ filter p xs = ground (arith, e) in
        (
          inr e,
          All-weaken (λ y. Mem y (filter p xs) ⊎ (p y ≡ false))
              (λ y. Mem y (filter p (x ∷ xs)) ⊎ (p y ≡ false)) xs
              (λ y h. elim h [ inl m ↦ inl (rw (passed) m) | inr f ↦ inr f ]) (filter-mem p xs),
        )
  ]

  insert-length :
      (before : A → A → Bool) (x : A) (ys : List A) → length (insert before x ys) ≡ suc (length ys)
  unfolding insert
  insert-length before x [] = refl
  insert-length before x (y ∷ ys) = ground (arith, insert-length before x ys)

  pub sort_by-length :
      (before : A → A → Bool) (xs : List A) → length (sort_by before xs) ≡ length xs
  unfolding sort_by
  sort_by-length before [] = refl
  sort_by-length before (x ∷ xs) =
      insert-length before x (sort_by before xs) ∙ ap suc (sort_by-length before xs)

  -- `OFFSET (page - 1) * limit LIMIT limit`
  abbrev pub page_of : ℕ → ℕ → List A → List A
  page_of page limit xs = take limit (drop ((page - 1) * limit) xs)

  -- The first pages, one after the other.
  unfoldable pub pages : ℕ → ℕ → List A → List A
  pages zero limit xs = []
  pages (suc n) limit xs = let before = pages n limit xs in before ++ page_of (suc n) limit xs

  take-nil : (n : ℕ) → take {A = A} n [] ≡ []
  take-nil zero = refl
  take-nil (suc n) = refl

  take-add : (m n : ℕ) (xs : List A) → take (m + n) xs ≡ take m xs ++ take n (drop m xs)
  take-add zero n xs = let e : 0 + n ≡ n = omega arith in rw (e) refl
  take-add (suc m) n [] = let e : suc m + n ≡ suc (m + n) = omega arith in rw (e) (sym (take-nil n))
  take-add (suc m) n (x ∷ xs) =
      let e : suc m + n ≡ suc (m + n) = omega arith in rw (e) (ap (x ∷◌) (take-add m n xs))

  pages-take : (n limit : ℕ) (xs : List A) → pages n limit xs ≡ take (n * limit) xs
  unfolding pages
  pages-take zero limit xs = let e : 0 * limit ≡ 0 = omega arith in rw (e) refl
  pages-take (suc n) limit xs =
      let e : suc n * limit ≡ n * limit + limit = omega arith in
      let f : suc n - 1 ≡ n = omega arith in
      rw (e, f, pages-take n limit xs) (sym (take-add (n * limit) limit xs))

  take-all : (n : ℕ) (xs : List A) → length xs ≤ n → take n xs ≡ xs
  take-all n [] h = take-nil n
  take-all zero (x ∷ xs) h = absurd (omega arith)
  take-all (suc n) (x ∷ xs) h = ap (x ∷◌) (take-all n xs (omega arith))

  -- Enough pages give every row once, in the order of the query.
  pub pages-all : (n limit : ℕ) (xs : List A) → length xs ≤ n * limit → pages n limit xs ≡ xs
  pages-all n limit xs h = pages-take n limit xs ∙ take-all (n * limit) xs h

module _ {ℓ} {A : Type ℓ} where
  -- What a comparison has to be for a list to be sorted by it.
  pub record IsOrder (before : A → A → Bool) : Type ℓ where
    pub total : (x y : A) → before x y ≡ false → before y x ≡ true
    pub trans : (x y z : A) → before x y ≡ true → before y z ≡ true → before x z ≡ true

module _ {ℓ} {A : Type ℓ} (before : A → A → Bool) (order : IsOrder before) where
  insert-IsSorted :
      (x : A) (ys : List A) → IsSorted before ys → IsSorted before (insert before x ys)
  unfolding insert
  insert-IsSorted x [] h = (tt, tt)
  insert-IsSorted x (y ∷ ys) h = elim (Bool-cases (before x y)) [
    | inl e ↦ rw (insert, e) ((e, All-weaken _ _ ys (λ z l. order.trans x y z e l) h.0), h)
    | inr e ↦
        rw (insert, e)
          (
            insert-All (λ z. before y z ≡ true) before x ys (order.total x y e) h.0,
            insert-IsSorted x ys h.1,
          )
  ]

  pub sort_by-IsSorted : (xs : List A) → IsSorted before (sort_by before xs)
  unfolding sort_by
  sort_by-IsSorted [] = tt
  sort_by-IsSorted (x ∷ xs) = insert-IsSorted x (sort_by before xs) (sort_by-IsSorted xs)
