-- ===== src/Common/Order.antt =====
-- What `ORDER BY` gives: any arrangement of the rows that the comparison allows. If no two rows tie there is
-- only one.
use mathlib.Core.Path.{◌≡◌, refl, sym, ap, ◌∙◌, subst}
use mathlib.Core.Bool.{Bool, false, ◌&&◌}
use mathlib.Core.Logic.{inl, inr}
use mathlib.Core.List.{List, [], ◌∷◌}
use mathlib.Core.List.{Permᴰ}
use mathlib.Core.List.Permᴰ
use mathlib.Core.List.Permᴰ.{nil, cons, swap, trans}
use native.Mathlib.Omega.{arith}
use matata_backend.Common.Tests.{Bool-cases}
use matata_backend.Common.Lists.{All}
use matata_backend.Common.Sort.{insert, sort_by, IsSorted, IsOrder, sort_by-IsSorted}

module _ {ℓ} {A : Type ℓ} (before : A → A → Bool) where
  -- Each of the two rows may come before the other.
  abbrev pub ties : A → A → Bool
  ties x y = before x y && before y x

  abbrev pub NoTies : List A → Type ℓ
  NoTies [] = Unit
  NoTies (x ∷ xs) = All (λ y. ties x y ≡ false) xs × NoTies xs

module _ {ℓ} {A : Type ℓ} (before : A → A → Bool) (order : IsOrder before) where
  insert_comm :
      (x y : A) (s : List A)
      → ties before x y ≡ false
      → insert before x (insert before y s) ≡ insert before y (insert before x s)
  unfolding insert
  insert_comm x y [] apart = ground (arith, apart, order.total x y)
  insert_comm x y (z ∷ s) apart =
      let rest = insert_comm x y s apart in
      ground (
        arith,
        apart,
        order.total x y,
        order.total x z,
        order.total y z,
        order.trans x z y,
        order.trans y z x,
        rest,
      )

  sorted-sort_by : (xs : List A) → IsSorted before xs → sort_by before xs ≡ xs
  unfolding sort_by insert
  sorted-sort_by [] h = refl
  sorted-sort_by (x ∷ []) h = refl
  sorted-sort_by (x ∷ y ∷ ys) h =
      ap (insert before x) (sorted-sort_by (y ∷ ys) h.1) ∙ ground (arith, h.0.0)

  All-perm {κ} : (P : A → Type κ) {xs ys : List A} → Permᴰ xs ys → All P xs → All P ys
  All-perm P nil h = tt
  All-perm P (cons e p) (x, h) = (rw e at x, All-perm P p h)
  All-perm P (swap e f) (x, (y, h)) = (rw f at y, (rw e at x, h))
  All-perm P (trans p q) h = All-perm P q (All-perm P p h)

  ties_comm : (x y : A) → ties before x y ≡ false → ties before y x ≡ false
  ties_comm x y h = ground (arith, h)

  NoTies-perm : {xs ys : List A} → Permᴰ xs ys → NoTies before xs → NoTies before ys
  NoTies-perm nil h = tt
  NoTies-perm {xs = x ∷ xs} {ys = y ∷ ys} (cons e p) (apart, h) =
      (rw (← e) (All-perm (λ z. ties before x z ≡ false) p apart), NoTies-perm p h)
  NoTies-perm {xs = x ∷ y ∷ l} (swap e f) ((xy, xl), (yl, h)) = (
    (rw (← e, ← f) (ties_comm x y xy), subst (λ z. All (λ w. ties before z w ≡ false) l) f yl),
    (subst (λ z. All (λ w. ties before z w ≡ false) l) e xl, h),
  )
  NoTies-perm (trans p q) h = NoTies-perm q (NoTies-perm p h)

  sort_by-reordered :
      {xs ys : List A} → Permᴰ xs ys → NoTies before xs → sort_by before xs ≡ sort_by before ys
  unfolding sort_by
  sort_by-reordered nil h = refl
  sort_by-reordered {xs = x ∷ xs} {ys = y ∷ ys} (cons e p) (apart, h) =
      rw (← e) (ap (insert before x) (sort_by-reordered p h))
  sort_by-reordered {xs = x ∷ y ∷ l} (swap e f) ((xy, xl), (yl, h)) =
      rw (← e, ← f) (insert_comm x y (sort_by before l) xy)
  sort_by-reordered (trans p q) h = sort_by-reordered p h ∙ sort_by-reordered q (NoTies-perm p h)

  -- Rows without ties have one arrangement.
  pub ordered-sort_by :
      (xs ys : List A)
      → Permᴰ xs ys
      → NoTies before xs
      → IsSorted before ys
      → ys ≡ sort_by before xs
  ordered-sort_by xs ys p apart sorted =
      sym (sorted-sort_by ys sorted) ∙ sym (sort_by-reordered p apart)

-- What SQL promises of `ORDER BY`, and no more: the rows, rearranged so that they are sorted.
pub record IsOrderBy {ℓ} {A : Type ℓ} (before : A → A → Bool) (ordered : List A → List A)
    : Type ℓ where
  pub rows : (xs : List A) → Permᴰ xs (ordered xs)
  pub sorted : (xs : List A) → IsSorted before (ordered xs)

module _ {ℓ} {A : Type ℓ} (before : A → A → Bool) (order : IsOrder before) where
  insert-reordered : (x : A) (ys : List A) → Permᴰ (x ∷ ys) (insert before x ys)
  unfolding insert
  insert-reordered x [] = cons refl nil
  insert-reordered x (y ∷ ys) = elim (Bool-cases (before x y)) [
    | inl e ↦ rw (insert, e) (Permᴰ.refl (x ∷ y ∷ ys))
    | inr e ↦ rw (insert, e) (trans (swap refl refl) (cons refl (insert-reordered x ys)))
  ]

  sort_by-rows : (xs : List A) → Permᴰ xs (sort_by before xs)
  unfolding sort_by
  sort_by-rows [] = nil
  sort_by-rows (x ∷ xs) =
      trans (cons refl (sort_by-rows xs)) (insert-reordered x (sort_by before xs))

  -- Sorting is one way to answer the query.
  pub sort_by-IsOrderBy : IsOrderBy before (sort_by before)
  sort_by-IsOrderBy = record { rows = sort_by-rows; sorted = sort_by-IsSorted before order }
