-- ===== src/Auth/Accounts.antt =====
-- Analyst accounts: `lookup_analyst_account`, `register_analyst_account`, `update_analyst_account_label`
-- and `deactivate_analyst_account` of app/services/auth_service.py. The hash, `str.strip`, `str.lower`
-- and the random identifier are arguments. The table's `email_hash` is unique: an insertion that
-- repeats one fails.
pub mod Registered
use matata_backend.Common.{
  ℕ, String, Bool, true, false, ◌&&◌, ◌||◌, Option, none, some, List, [], ◌∷◌, Result, ok, err,
  ◌==◌, ◌same_as◌, is_some, if◌then◌else◌,
}
use matata_backend.Auth.Redis.{Role, analyst, responder, admin}

pub record AnalystAccount : Type 0 where
  pub id : ℕ
  pub email_hash : String
  pub label : Option String
  pub role : Role
  pub region_geojson : Option String
  pub created_by_sub : String
  pub is_active : Bool

-- The two `ValueError`s, and the `IntegrityError` of the insertion.
pub data AccountError : Type 0 where
  not_elevated already_registered unique_violation : AccountError

-- `email_hash` is unique in the table, so that a first match is the only one.
unfoldable pub lookup_analyst_account : String → List AnalystAccount → Option AnalystAccount
lookup_analyst_account email_hash [] = none
lookup_analyst_account email_hash (a ∷ rest) =
    if (a.email_hash same_as email_hash) && a.is_active
    then some a
    else lookup_analyst_account email_hash rest

-- The unique index: some account, active or not, has the hash.
unfoldable pub hash_taken : String → List AnalystAccount → Bool
hash_taken email_hash [] = false
hash_taken email_hash (a ∷ rest) = (a.email_hash same_as email_hash) || hash_taken email_hash rest

abbrev pub is_elevated : Role → Bool
is_elevated analyst = true
is_elevated responder = true
is_elevated admin = true
is_elevated _ = false

-- The active account of an identifier is changed.
unfoldable pub change_account :
    (AnalystAccount → AnalystAccount)
    → ℕ
    → List AnalystAccount
    → Option AnalystAccount × List AnalystAccount
change_account f id [] = (none, [])
change_account f id (a ∷ rest) =
    let (found, rest') = change_account f id rest in
    if (a.id == id) && a.is_active then (some (f a), f a ∷ rest) else (found, a ∷ rest')

unfoldable pub update_analyst_account_label :
    ℕ → Option String → List AnalystAccount → Option AnalystAccount × List AnalystAccount
update_analyst_account_label id label = change_account (λ a. record a { label = label }) id

unfoldable pub deactivate_analyst_account : ℕ → List AnalystAccount → Bool × List AnalystAccount
deactivate_analyst_account id db =
    let (found, db') = change_account (λ a. record a { is_active = false }) id db in
    (is_some found, db')

-- The row of a registration.
abbrev pub new_account : String → Role → String → Option String → Option String → ℕ → AnalystAccount
new_account email_hash role created_by_sub region_geojson label id = record {
  id = id;
  email_hash = email_hash;
  label = label;
  role = role;
  region_geojson = region_geojson;
  created_by_sub = created_by_sub;
  is_active = true;
}

module _ (hash_identifier strip lower : String → String) where
  abbrev normalise_email : String → String
  normalise_email email = lower (strip email)

  abbrev pub email_hash_of : String → String
  email_hash_of email = hash_identifier (normalise_email email)

  unfoldable pub register_analyst_account :
      String
      → Role
      → String
      → Option String
      → Option String
      → ℕ
      → List AnalystAccount
      → Result AccountError AnalystAccount × List AnalystAccount
  register_analyst_account email role created_by_sub region_geojson label id db =
      let email_hash = email_hash_of email in
      let account = new_account email_hash role created_by_sub region_geojson label id in
      if is_elevated role
      then (if is_some (lookup_analyst_account email_hash db)
          then (err already_registered, db)
          else (if hash_taken email_hash db
              then (err unique_violation, db)
              else (ok account, account ∷ db)))
      else (err not_elevated, db)
