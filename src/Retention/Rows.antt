-- ===== src/Retention/Rows.antt =====
-- What the photo sweep does to the rows.
use matata_backend.Common.{
  ℕ, ℤ, ◌≡◌, ◌∙◌, refl, inl, inr, String, Bool, true, false, none, some, List, [], ◌∷◌, ◌+◌,
  if◌then◌else◌, Bool-cases, Option-cases, arith,
}
use matata_backend.Common.Table.{Table, find}
use matata_backend.Models.{DamageSeverity, Report}
use matata_backend.Analyst.Severity.{worst, worst_from, worst_step}
use matata_backend.Lifecycle.Step.{
  adopt_photo, Steps, here, next, Evolves, Evolves-refl, Evolves-trans,
}
use matata_backend.Retention.{Summary, has_key, clear_key, delete_keys, purge_keys, purge, enabled}

abbrev pub cleared : String → Report → Report
cleared key r = if has_key key r then record r { photo_url = none } else r

find-clear_key_none :
    (key : String) (j : ℕ) (t : Table Report) → find j t ≡ none → find j (clear_key key t) ≡ none
unfolding find clear_key
find-clear_key_none key j [] h = refl
find-clear_key_none key j ((k, r) ∷ t) h = ground (arith, find-clear_key_none key j t)

pub find-clear_key :
    (key : String) (j : ℕ) (r : Report) (t : Table Report)
    → find j t ≡ some r
    → find j (clear_key key t) ≡ some (cleared key r)
unfolding find clear_key
find-clear_key key j r [] h = absurd (ground (arith, h))
find-clear_key key j r ((k, q) ∷ t) h = ground (arith, find-clear_key key j r t)

cleared-Steps : (key : String) (r : Report) → Steps r (cleared key r)
cleared-Steps key r = elim (Bool-cases (has_key key r)) [
  | inl e ↦ rw (e) (next here (adopt_photo none refl))
  | inr e ↦ rw (e) here
]

clear_key-Evolves : (key : String) (t : Table Report) → Evolves t (clear_key key t)
clear_key-Evolves key t j = elim (Option-cases (find j t)) [
  | inl e ↦ rw (e, find-clear_key_none key j t e) refl
  | inr (r, e) ↦ rw (e, find-clear_key key j r t e) (cleared key r, refl, cleared-Steps key r)
]

worst_from-clear_key :
    (b : ℕ) (key : String) (t : Table Report)
    → (acc : DamageSeverity) → worst_from b acc (clear_key key t) ≡ worst_from b acc t
unfolding worst_from clear_key worst_step
worst_from-clear_key b key [] acc = refl
worst_from-clear_key b key ((k, r) ∷ t) acc =
    ground (arith, worst_from-clear_key b key t (worst_step b acc r))

-- The rows go along their steps, and no building notices.
abbrev IsUnnoticed : Table Report → Table Report → Type 0
IsUnnoticed t t' = Evolves t t' × ((b : ℕ) → worst b t' ≡ worst b t)

clear_key-IsUnnoticed : (key : String) (t : Table Report) → IsUnnoticed t (clear_key key t)
unfolding worst
clear_key-IsUnnoticed key t =
    (clear_key-Evolves key t, λ b. worst_from-clear_key b key t DamageSeverity.none)

delete_keys-IsUnnoticed :
    (delete_image : String → Bool) (keys : List String) (summary : Summary) (t : Table Report)
    → IsUnnoticed t (delete_keys delete_image keys (summary, t)).1
unfolding delete_keys
delete_keys-IsUnnoticed delete_image [] summary t = (Evolves-refl t, λ b. refl)
delete_keys-IsUnnoticed delete_image (key ∷ keys) summary t = elim (Bool-cases (delete_image key)) [
  | inl e ↦
      let (steps, same) = clear_key-IsUnnoticed key t in
      let (steps', same') =
        delete_keys-IsUnnoticed delete_image keys (record summary { deleted = summary.deleted + 1 })
          (clear_key key t) in
      rw (delete_keys, e) (Evolves-trans t (clear_key key t) _ steps steps', λ b. same' b ∙ same b)
  | inr e ↦
      rw (delete_keys, e)
        (delete_keys-IsUnnoticed delete_image keys (record summary { failed = summary.failed + 1 })
          t)
]

purge_keys-IsUnnoticed :
    (delete_image : String → Bool) (dry_run : Bool) (keys : List String) (summary : Summary)
    (t : Table Report)
    → IsUnnoticed t (purge_keys delete_image dry_run keys summary t).1
unfolding purge_keys
purge_keys-IsUnnoticed delete_image true keys summary t = (Evolves-refl t, λ b. refl)
purge_keys-IsUnnoticed delete_image false keys summary t =
    delete_keys-IsUnnoticed delete_image keys _ t

-- A sweep takes photos from rows at most.
pub purge-IsUnnoticed :
    (delete_image : String → Bool) (days : ℤ) (limit : ℕ) (dry_run : Bool) (now : ℕ)
    (t : Table Report)
    → IsUnnoticed t (purge delete_image days limit dry_run now t).1
unfolding purge
purge-IsUnnoticed delete_image days limit dry_run now t = elim (Option-cases (enabled days)) [
  | inl e ↦ rw (purge, e) (Evolves-refl t, λ b. refl)
  | inr (age, e) ↦ rw (purge, e) (purge_keys-IsUnnoticed delete_image dry_run _ _ t)
]
