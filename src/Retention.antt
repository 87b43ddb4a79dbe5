-- ===== src/Retention.antt =====
-- The photo sweep of app/workers/retention_tasks.py: `_purge_impl`. What the object storage does with a
-- key is an argument: it deletes the object, or raises. Times are seconds.
pub mod Sweep
pub mod Rows
use matata_backend.Common.{
  ℕ, zero, suc, ◌+◌, ◌-◌, ◌*◌, max, ℤ, pos, negsuc, String, Bool, true, false, not, ◌&&◌, ◌||◌,
  Option, none, some, List, [], ◌∷◌, ltb, leb, ◌same_as◌, if◌then◌else◌,
}
use matata_backend.Common.Lists.{length, take}
use matata_backend.Common.Sort.{filter, sort_by}
use matata_backend.Common.Table.{Table}
use matata_backend.Models.{Report, Database}

-- `photo_url = :key`
abbrev pub has_key : String → Report → Bool
has_key key r = elim r.photo_url [ none ↦ false | some url ↦ url same_as key ]

unfoldable pub contains_key : String → List String → Bool
contains_key key [] = false
contains_key key (k ∷ ks) = let later = contains_key key ks in (k same_as key) || later

abbrev add_key : Option String → List String → List String
add_key none keys = keys
add_key (some key) keys = if contains_key key keys then keys else key ∷ keys

-- The groups of `GROUP BY photo_url`, where it is not null.
unfoldable pub photo_keys : Table Report → List String
photo_keys [] = []
photo_keys ((k, r) ∷ t) = let keys = photo_keys t in add_key r.photo_url keys

-- `MAX(created_at)` of a group.
unfoldable pub newest : String → Table Report → ℕ
newest key [] = 0
newest key ((k, r) ∷ t) =
    let rest = newest key t in if has_key key r then max r.created_at rest else rest

-- `_EXPIRED_KEYS_QUERY`
unfoldable pub expired_keys : ℕ → ℕ → Table Report → List String
expired_keys cutoff limit t = take limit (
    sort_by (λ a b. leb (newest a t) (newest b t))
      (filter (λ key. ltb (newest key t) cutoff) (photo_keys t)))

-- `_CLEAR_KEY`
unfoldable pub clear_key : String → Table Report → Table Report
clear_key key [] = []
clear_key key ((k, r) ∷ t) =
    let rest = clear_key key t in
    (k, if has_key key r then record r { photo_url = none } else r) ∷ rest

pub record Summary : Type 0 where
  pub retention_days : ℤ
  pub dry_run : Bool
  pub expired : ℕ
  pub deleted : ℕ
  pub failed : ℕ

abbrev pub empty_summary : ℤ → Bool → Summary
empty_summary days dry_run = record {
  retention_days = days;
  dry_run = dry_run;
  expired = 0;
  deleted = 0;
  failed = 0;
}

-- The loop over the keys. A key whose object is not deleted stays.
unfoldable pub delete_keys :
    (String → Bool) → List String → Summary × Table Report → Summary × Table Report
delete_keys delete_image [] st = st
delete_keys delete_image (key ∷ keys) (summary, t) =
    let deleted = delete_image key in
    delete_keys delete_image keys (
      if deleted
      then (record summary { deleted = summary.deleted + 1 }, clear_key key t)
      else (record summary { failed = summary.failed + 1 }, t))

-- `timedelta(days=days)` in seconds, or `none` if the sweep is disabled.
abbrev pub enabled : ℤ → Option ℕ
enabled (pos zero) = none
enabled (pos (suc n)) = some (suc n * 86400)
enabled (negsuc n) = none

unfoldable pub purge_keys :
    (String → Bool) → Bool → List String → Summary → Table Report → Summary × Table Report
purge_keys delete_image dry_run keys summary t =
    let counted = record summary { expired = length keys } in
    if dry_run then (counted, t) else delete_keys delete_image keys (counted, t)

unfoldable pub purge : (String → Bool) → ℤ → ℕ → Bool → ℕ → Table Report → Summary × Table Report
purge delete_image days limit dry_run now t = elim (enabled days) [
  | none ↦ (empty_summary days dry_run, t)
  | some age ↦
      purge_keys delete_image dry_run (expired_keys (now - age) limit t)
        (empty_summary days dry_run) t
]
