-- ===== src/Common/Table.antt =====
-- A database table as rows under their primary keys. A key is compared only, so it is a number.
use matata_backend.Common.Lists.{All, All-weaken}
use mathlib.Core.Logic.{inl, inr}
use matata_backend.Common.Tests.{Bool-cases, ◌==◌, if◌then◌else◌, ==_refl}
use Prim.Native.Nat.{ℕ}
use mathlib.Core.Path.{◌≡◌, refl}
use mathlib.Core.Option.{Option, none, some}
use mathlib.Core.List.{List, [], ◌∷◌, ◌++◌}
use native.Mathlib.Omega.{arith}

abbrev pub Table {ℓ} : Type ℓ → Type ℓ
Table V = List (ℕ × V)

module _ {ℓ} {V : Type ℓ} where
  -- `SELECT … WHERE id = k`
  unfoldable pub find : ℕ → Table V → Option V
  find k [] = none
  find k ((j, v) ∷ t) = if k == j then some v else find k t

  -- `UPDATE … WHERE id = k`: the row is replaced, and a missing key changes nothing.
  unfoldable pub put : ℕ → V → Table V → Table V
  put k v [] = []
  put k v ((j, w) ∷ t) = if k == j then (j, v) ∷ t else (j, w) ∷ put k v t

  -- A predicate of every row that is found under a key.
  abbrev pub AllRows {κ} : (ℕ → V → Type κ) → Table V → Type (ℓ ⊔ κ)
  AllRows P t = (k : ℕ) (v : V) → find k t ≡ some v → P k v

  pub find-put :
      (j k : ℕ) (v w : V) (t : Table V)
      → find k t ≡ some w
      → find j (put k v t) ≡ (if j == k then some v else find j t)
  unfolding find put
  find-put j k v w [] h = ground arith
  find-put j k v w (r ∷ t) h = ground (arith, find-put j k v w t)

  pub find-put_self :
      (k : ℕ) (v w : V) (t : Table V) → find k t ≡ some w → find k (put k v t) ≡ some v
  find-put_self k v w t h = rw (find-put k k v w t h) (rw (==_refl k))

  -- Replacing a row keeps which keys are there.
  pub find-put_none : (j k : ℕ) (v : V) (t : Table V) → find j t ≡ none → find j (put k v t) ≡ none
  unfolding find put
  find-put_none j k v [] h = refl
  find-put_none j k v (r ∷ t) h = ground (arith, find-put_none j k v t)

  -- Every key of the table is found.
  pub find-All : (t : Table V) → All (λ x. (v : V) × (find x.0 t ≡ some v)) t
  unfolding find
  find-All [] = tt
  find-All ((k, v) ∷ t) = (
    (v, rw (find, ==_refl k) refl),
    All-weaken _ _ t (λ (j, w) (u, found). later j u found) (find-All t),
  )
    where
      later : (j : ℕ) (u : V) → find j t ≡ some u → (u' : V) × (find j ((k, v) ∷ t) ≡ some u')
      later j u found = elim (Bool-cases (j == k)) [
        | inl same ↦ (v, rw (find, same) refl)
        | inr other ↦ (u, rw (find, other) found)
      ]

  -- A row under a new key is found under it, and every other key as before.
  pub find-append :
      (j k : ℕ) (v : V) (t : Table V)
      → find k t ≡ none
      → find j (t ++ ((k, v) ∷ [])) ≡ (if j == k then some v else find j t)
  unfolding find
  find-append j k v [] fresh = refl
  find-append j k v ((i, w) ∷ t) fresh = ground (arith, find-append j k v t)

  -- A row that is appended hides no row that was there.
  pub find-appended :
      (j k : ℕ) (v : V) (t : Table V)
      → find j (t ++ ((k, v) ∷ []))
        ≡ elim (find j t) [ none ↦ if j == k then some v else none | some w ↦ some w ]
  unfolding find
  find-appended j k v [] = ground arith
  find-appended j k v ((i, w) ∷ t) = ground (arith, find-appended j k v t)
