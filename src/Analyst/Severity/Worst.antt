-- ===== src/Analyst/Severity/Worst.antt =====
-- The running maximum of `_recompute_building_severity`, against a description of the worst severity.
use matata_backend.Common.{ℕ, ◌≤◌, ◌≡◌, refl, ◌⊎◌, inl, true, some, [], ◌∷◌, arith}
use matata_backend.Common.Table.{Table, find, put}
use matata_backend.Models.{DamageSeverity, Report}
use matata_backend.Analyst.Severity.{
  severity_order, damage_to_building_severity, counts_for, worst_step, worst_from, worst,
}

module _ (b : ℕ) where
  -- No report that counts is worse than `s`.
  abbrev IsBound : DamageSeverity → Table Report → Type 0
  IsBound s [] = Unit
  IsBound s ((k, r) ∷ t) =
      (counts_for b r ≡ true
        → severity_order (damage_to_building_severity r.damage_severity) ≤ severity_order s)
      × IsBound s t

  -- Some report that counts is as bad as `s`.
  abbrev Attains : DamageSeverity → Table Report → Type 0
  Attains s [] = ⊥
  Attains s ((k, r) ∷ t) =
      ((counts_for b r ≡ true) × (damage_to_building_severity r.damage_severity ≡ s)) ⊎ Attains s t

  -- The worst of the reports that count, or `none` if no report counts.
  abbrev pub IsWorst : DamageSeverity → Table Report → Type 0
  IsWorst s t = IsBound s t × ((s ≡ DamageSeverity.none) ⊎ Attains s t)

  worst_step-ge :
      (acc : DamageSeverity) (r : Report) → severity_order acc ≤ severity_order (worst_step b acc r)
  unfolding worst_step
  worst_step-ge acc r = ground arith

  worst_step-IsBound :
      (acc : DamageSeverity) (r : Report)
      → counts_for b r ≡ true
      → severity_order (damage_to_building_severity r.damage_severity)
        ≤ severity_order (worst_step b acc r)
  unfolding worst_step
  worst_step-IsBound acc r c = ground arith

  worst_step-Attains :
      (acc : DamageSeverity) (r : Report)
      → (worst_step b acc r ≡ acc)
        ⊎ ((counts_for b r ≡ true)
            × (damage_to_building_severity r.damage_severity ≡ worst_step b acc r))
  unfolding worst_step
  worst_step-Attains acc r = ground arith

  worst_from-ge :
      (acc : DamageSeverity) (t : Table Report)
      → severity_order acc ≤ severity_order (worst_from b acc t)
  unfolding worst_from
  worst_from-ge acc [] = omega arith
  worst_from-ge acc ((k, r) ∷ t) =
      omega (arith, worst_step-ge acc r, worst_from-ge (worst_step b acc r) t)

  worst_from-IsBound : (acc : DamageSeverity) (t : Table Report) → IsBound (worst_from b acc t) t
  unfolding worst_from
  worst_from-IsBound acc [] = tt
  worst_from-IsBound acc ((k, r) ∷ t) = (
    λ c. omega (arith, worst_step-IsBound acc r c, worst_from-ge (worst_step b acc r) t),
    worst_from-IsBound (worst_step b acc r) t,
  )

  worst_from-Attains :
      (acc : DamageSeverity) (t : Table Report)
      → (worst_from b acc t ≡ acc) ⊎ Attains (worst_from b acc t) t
  unfolding worst_from
  worst_from-Attains acc [] = inl refl
  worst_from-Attains acc ((k, r) ∷ t) =
      ground (arith, worst_step-Attains acc r, worst_from-Attains (worst_step b acc r) t)

  -- The severity that is computed for a building is at least that of every report which counts for
  -- it, and it is `none` or the severity of one of them.
  pub worst-IsWorst : (t : Table Report) → IsWorst (worst b t) t
  unfolding worst
  worst-IsWorst t =
      (worst_from-IsBound DamageSeverity.none t, worst_from-Attains DamageSeverity.none t)

  -- A change of one report that neither adds nor removes it from the count changes nothing.
  worst_from-put :
      (acc : DamageSeverity) (k : ℕ) (r r' : Report) (t : Table Report)
      → find k t ≡ some r
      → counts_for b r' ≡ counts_for b r
      → r'.damage_severity ≡ r.damage_severity
      → worst_from b acc (put k r' t) ≡ worst_from b acc t
  unfolding worst_from worst_step find put
  worst_from-put acc k r r' [] h c d = cc
  worst_from-put acc k r r' ((j, q) ∷ t) h c d =
      ground (arith, worst_from-put (worst_step b acc q) k r r' t)

  pub worst-put :
      (k : ℕ) (r r' : Report) (t : Table Report)
      → find k t ≡ some r
      → counts_for b r' ≡ counts_for b r
      → r'.damage_severity ≡ r.damage_severity
      → worst b (put k r' t) ≡ worst b t
  unfolding worst
  worst-put k r r' t h c d = worst_from-put DamageSeverity.none k r r' t h c d
