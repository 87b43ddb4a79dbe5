-- ===== src/Lifecycle/Growth.antt =====
-- Report rows along operations that may also insert a report.
use matata_backend.Common.{
  ℕ, ◌≡◌, refl, ◌⊎◌, inl, inr, Option, none, some, [], ◌∷◌, ◌++◌, ◌==◌, Option-cases, Bool-cases,
}
use matata_backend.Common.Table.{Table, find, find-appended}
use matata_backend.Models.{Report}
use matata_backend.Lifecycle.Step.{Steps, here, Steps-trans, RowEvolves, Evolves}

module _ (New : Report → Type 0) where
  -- A missing row stays missing, or is inserted as a new report and goes some steps; a row that is there
  -- goes some steps.
  abbrev pub RowGrows : Option Report → Option Report → Type 0
  RowGrows none o = (o ≡ none) ⊎ ((r : Report) × (s : Report) × New r × (o ≡ some s) × Steps r s)
  RowGrows (some r) o = (s : Report) × (o ≡ some s) × Steps r s

  abbrev pub Grows : Table Report → Table Report → Type 0
  Grows t t' = (k : ℕ) → RowGrows (find k t) (find k t')

  RowEvolves-Grows : (o p : Option Report) → RowEvolves o p → RowGrows o p
  RowEvolves-Grows none p e = inl e
  RowEvolves-Grows (some r) p x = x

  pub Evolves-Grows : (t u : Table Report) → Evolves t u → Grows t u
  Evolves-Grows t u h k = RowEvolves-Grows (find k t) (find k u) (h k)

  RowGrows-trans : (o p q : Option Report) → RowGrows o p → RowGrows p q → RowGrows o q
  RowGrows-trans none p q (inl e) g = rw e at g
  RowGrows-trans none p q (inr (r, s, new, e, x)) g =
      let (t, f, y) : RowGrows (some s) q = (rw e at g) in inr (r, t, new, f, Steps-trans x y)
  RowGrows-trans (some r) p q (s, e, x) g =
      let (t, f, y) : RowGrows (some s) q = (rw e at g) in (t, f, Steps-trans x y)

  pub Grows-trans : (t u v : Table Report) → Grows t u → Grows u v → Grows t v
  Grows-trans t u v f g k = RowGrows-trans (find k t) (find k u) (find k v) (f k) (g k)

  pub Grows-refl : (t : Table Report) → Grows t t
  Grows-refl t k = stays (find k t)
    where
      stays : (o : Option Report) → RowGrows o o
      stays none = inl refl
      stays (some r) = (r, refl, here)

  -- An inserted report.
  pub append-Grows : (k : ℕ) (r : Report) (t : Table Report) → New r → Grows t (t ++ ((k, r) ∷ []))
  append-Grows k r t new j = elim (Option-cases (find j t)) [
    | inr (s, e) ↦ rw (find-appended j k r t, e) (s, refl, here)
    | inl e ↦ elim (Bool-cases (j == k)) [
      | inl same ↦ rw (find-appended j k r t, e, same) (inr (r, r, new, refl, here))
      | inr other ↦ rw (find-appended j k r t, e, other) (inl refl)
    ]
  ]
