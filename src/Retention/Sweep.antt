-- ===== src/Retention/Sweep.antt =====
-- Which photos the sweep removes.
use matata_backend.Common.{
  ℕ, ◌-◌, ◌<◌, ◌≡◌, refl, ◌⊎◌, inl, inr, ℤ, String, Bool, true, false, Option, none, some, List, [],
  ◌∷◌, ltb, ltb→lt, Bool-cases, Option-cases, arith,
}
use matata_backend.Common.Lists.{All, All-weaken, All-take}
use matata_backend.Common.Sort.{filter, sort_by, filter-All, sort_by-All}
use matata_backend.Common.Table.{Table, find}
use matata_backend.Models.{Report}
use matata_backend.Retention.{
  Summary, has_key, photo_keys, newest, expired_keys, clear_key, delete_keys, purge_keys, purge,
  enabled, empty_summary,
}
use matata_backend.Retention.Rows.{cleared, find-clear_key}

-- The photo of key `key` may go: its object is deleted, and every report that refers to it is older than
-- the cutoff.
abbrev MayGo : (String → Bool) → ℕ → Table Report → String → Type 0
MayGo delete_image cutoff t key = (delete_image key ≡ true) × (newest key t < cutoff)

-- What is left of a row: the row, or the row without its photo, which may go.
abbrev pub IsKept : (String → Type 0) → Report → Report → Type 0
IsKept may r s =
    (s ≡ r)
    ⊎ ((key : String) × (has_key key r ≡ true) × may key × (s ≡ record r { photo_url = none }))

-- Every report under a key is at most as new as the group.
newest-ge :
    (key : String) (k : ℕ) (r : Report) (t : Table Report)
    → find k t ≡ some r
    → has_key key r ≡ true
    → ltb (newest key t) r.created_at ≡ false
unfolding find newest
newest-ge key k r [] found has = absurd (ground (arith, found))
newest-ge key k r ((j, q) ∷ t) found has = ground (arith, newest-ge key k r t)

delete_keys-IsKept :
    (delete_image : String → Bool) (may : String → Type 0) (keys : List String) (summary : Summary)
    (t : Table Report) (k : ℕ) (r s : Report)
    → All (λ key. delete_image key ≡ true → may key) keys
    → find k t ≡ some s
    → IsKept may r s
    → (s' : Report) × (find k (delete_keys delete_image keys (summary, t)).1 ≡ some s')
      × IsKept may r s'
unfolding delete_keys
delete_keys-IsKept delete_image may [] summary t k r s h found kept = (s, found, kept)
delete_keys-IsKept delete_image may (key ∷ keys) summary t k r s (h, hs) found kept =
    elim (Bool-cases (delete_image key)) [
      | inr e ↦
          rw (delete_keys, e) (delete_keys-IsKept delete_image may keys _ t k r s hs found kept)
      | inl e ↦
          rw (delete_keys, e)
            (delete_keys-IsKept delete_image may keys _ (clear_key key t) k r (cleared key s) hs
              (find-clear_key key k s t found) (step key s (h e) kept))
    ]
  where
    step : (key : String) (s : Report) → may key → IsKept may r s → IsKept may r (cleared key s)
    step key s m (inl same) = elim (Bool-cases (has_key key s)) [
      | inl e ↦ inr (key, rw (same) at e, m, rw (e, same) refl)
      | inr e ↦ inl (rw (e) same)
    ]
    step key s m (inr (key', has, m', same)) = inr (key', has, m', rw (same) refl)

expired_keys-All :
    (cutoff limit : ℕ) (t : Table Report)
    → All (λ key. newest key t < cutoff) (expired_keys cutoff limit t)
unfolding expired_keys
expired_keys-All cutoff limit t =
    All-take _ limit (sort_by _ (filter (λ key. ltb (newest key t) cutoff) (photo_keys t))) (
      sort_by-All _ _ (filter (λ key. ltb (newest key t) cutoff) (photo_keys t)) (
        All-weaken _ _ (filter (λ key. ltb (newest key t) cutoff) (photo_keys t))
          (λ key (u, e). ltb→lt (newest key t) cutoff e)
          (filter-All (λ key. Unit {0}) _ (photo_keys t) (all-tt (photo_keys t)))))
  where
    all-tt : (xs : List String) → All (λ key. Unit {0}) xs
    all-tt [] = tt
    all-tt (x ∷ xs) = (tt, all-tt xs)

-- The sweep is on, and the object of the key is deleted and too old.
abbrev pub MayPurge : (String → Bool) → Option ℕ → Bool → ℕ → Table Report → String → Type 0
MayPurge delete_image none dry_run now t key = ⊥
MayPurge delete_image (some age) true now t key = ⊥
MayPurge delete_image (some age) false now t key = MayGo delete_image (now - age) t key

-- A sweep leaves every report where it is, and takes a photo from it only if the sweep is enabled and
-- not a dry run, the storage has deleted the object, and every report that refers to the object is older
-- than the retention period; whatever deletions fail.
pub purge-IsKept :
    (delete_image : String → Bool) (days : ℤ) (limit : ℕ) (dry_run : Bool) (now k : ℕ) (r : Report)
    (t : Table Report)
    → find k t ≡ some r
    → (s : Report) × (find k (purge delete_image days limit dry_run now t).1 ≡ some s)
      × IsKept (MayPurge delete_image (enabled days) dry_run now t) r s
unfolding purge purge_keys
purge-IsKept delete_image days limit dry_run now k r t found = elim (Option-cases (enabled days)) [
  | inl e ↦ rw (purge, e) (r, found, inl refl)
  | inr (age, e) ↦ rw (purge, e) (swept age dry_run)
]
  where
    swept :
        (age : ℕ) (dry : Bool)
        → (s : Report) × (find k
              (purge_keys delete_image dry
                (expired_keys (now - age) limit t)
                (empty_summary days dry)
                t).1
            ≡ some s)
          × IsKept (MayPurge delete_image (some age) dry now t) r s
    swept age true = (r, found, inl refl)
    swept age false =
        delete_keys-IsKept delete_image (MayGo delete_image (now - age) t)
          (expired_keys (now - age) limit t) _ t k r r
          (All-weaken _ _ (expired_keys (now - age) limit t) (λ key old del. (del, old))
            (expired_keys-All (now - age) limit t))
          found (inl refl)
