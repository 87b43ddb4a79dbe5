-- ===== src/Auth/Accounts/Registered.antt =====
-- Which addresses can be registered, along any sequence of account operations.
use matata_backend.Common.{
  ℕ, String, true, false, Option, List, [], ◌∷◌, ok, same_as_refl, is_some, ◌≡◌, ◌≢◌, ◌↔◌, refl,
  arith,
}
use matata_backend.Auth.Redis.{Role}
use matata_backend.Auth.Accounts.{
  AnalystAccount, lookup_analyst_account, hash_taken, is_elevated, change_account,
  update_analyst_account_label, deactivate_analyst_account, email_hash_of, new_account,
  register_analyst_account,
}

-- An operation on the accounts, with its arguments.
pub data AccountOp : Type 0 where
  register : String → Role → String → Option String → Option String → ℕ → AccountOp
  relabel : ℕ → Option String → AccountOp
  deactivate : ℕ → AccountOp

-- A looked-up account has the hash, active or not.
lookup-hash_taken :
    (h : String) (db : List AnalystAccount)
    → is_some (lookup_analyst_account h db) ≡ true
    → hash_taken h db ≡ true
unfolding lookup_analyst_account hash_taken
lookup-hash_taken h [] e = absurd (ground (arith, e))
lookup-hash_taken h (a ∷ rest) e = ground (arith, e, lookup-hash_taken h rest)

-- A change that keeps every hash keeps which hashes are taken.
change_account-hash_taken :
    (f : AnalystAccount → AnalystAccount)
    → ((a : AnalystAccount) → (f a).email_hash ≡ a.email_hash)
    → (h : String) (id : ℕ) (db : List AnalystAccount)
    → hash_taken h (change_account f id db).1 ≡ hash_taken h db
unfolding change_account hash_taken
change_account-hash_taken f same h id [] = refl
change_account-hash_taken f same h id (a ∷ rest) =
    ground (arith, same a, change_account-hash_taken f same h id rest)

module _ (hash_identifier strip lower : String → String) where
  unfoldable pub apply_account : AccountOp → List AnalystAccount → List AnalystAccount
  apply_account (register email role by region label id) db =
      (register_analyst_account hash_identifier strip lower email role by region label id db).1
  apply_account (relabel id label) db = (update_analyst_account_label id label db).1
  apply_account (deactivate id) db = (deactivate_analyst_account id db).1

  unfoldable pub run_accounts : List AccountOp → List AnalystAccount → List AnalystAccount
  run_accounts [] db = db
  run_accounts (op ∷ ops) db = run_accounts ops (apply_account op db)

  -- An address is registered exactly when the role is elevated and no account, active or deactivated,
  -- was ever registered under its hash.
  register_accepts :
      (email : String) (role : Role) (by : String) (region label : Option String) (id : ℕ)
      (db : List AnalystAccount)
      → ((a : AnalystAccount) × ((register_analyst_account hash_identifier strip lower email role by
              region label id db).0
            ≡ ok a))
        ↔ ((is_elevated role ≡ true)
            × (hash_taken (email_hash_of hash_identifier strip lower email) db ≡ false))
  unfolding register_analyst_account
  register_accepts email role by region label id db =
      let taken = lookup-hash_taken (email_hash_of hash_identifier strip lower email) db in
      (
        λ (a, e). (ground (arith, e), ground (arith, e)),
        λ (up, free). (
          new_account (email_hash_of hash_identifier strip lower email) role by region label id,
          ground (arith, up, free, taken),
        ),
      )

  apply-hash_taken :
      (h : String) (op : AccountOp) (db : List AnalystAccount)
      → hash_taken h db ≡ true
      → hash_taken h (apply_account op db) ≡ true
  unfolding apply_account update_analyst_account_label deactivate_analyst_account
      register_analyst_account hash_taken
  apply-hash_taken h (register email role by region label id) db t = ground (arith, t)
  apply-hash_taken h (relabel id label) db t =
      rw (change_account-hash_taken (λ a. record a { label = label }) (λ a. refl) h id db) t
  apply-hash_taken h (deactivate id) db t =
      rw (change_account-hash_taken (λ a. record a { is_active = false }) (λ a. refl) h id db) t

  run-hash_taken :
      (h : String) (ops : List AccountOp) (db : List AnalystAccount)
      → hash_taken h db ≡ true
      → hash_taken h (run_accounts ops db) ≡ true
  unfolding run_accounts
  run-hash_taken h [] db t = t
  run-hash_taken h (op ∷ ops) db t =
      run-hash_taken h ops (apply_account op db) (apply-hash_taken h op db t)

  registered_taken :
      (email : String) (role : Role) (by : String) (region label : Option String) (id : ℕ)
      (db : List AnalystAccount) (a : AnalystAccount)
      → (register_analyst_account hash_identifier strip lower email role by region label id db).0
        ≡ ok a
      → hash_taken
          (email_hash_of hash_identifier strip lower email)
          (register_analyst_account hash_identifier strip lower email role by region label id db).1
        ≡ true
  unfolding register_analyst_account hash_taken
  registered_taken email role by region label id db a e =
      ground (arith, e, same_as_refl (email_hash_of hash_identifier strip lower email))

  -- An address is registered at most once: after a registration, and whatever happens to the accounts
  -- afterwards, a deactivation included, no registration of the address succeeds.
  pub register_once :
      (email : String) (role : Role) (by : String) (region label : Option String) (id : ℕ)
      (db : List AnalystAccount) (a : AnalystAccount)
      → (register_analyst_account hash_identifier strip lower email role by region label id db).0
        ≡ ok a
      → (ops : List AccountOp) (role' : Role) (by' : String) (region' label' : Option String)
        (id' : ℕ) (b : AnalystAccount)
      → let db' =
          run_accounts ops
            (register_analyst_account hash_identifier strip lower email role by region label id
              db).1 in
        (register_analyst_account hash_identifier strip lower email role' by' region' label' id'
          db').0
        ≢ ok b
  register_once email role by region label id db a done ops role' by' region' label' id' b again =
      let db1 =
        (register_analyst_account hash_identifier strip lower email role by region label id db).1 in
      let taken =
        run-hash_taken (email_hash_of hash_identifier strip lower email) ops db1
          (registered_taken email role by region label id db a done) in
      let (up, free) =
        (register_accepts email role' by' region' label' id' (run_accounts ops db1)).0 (b, again) in
      absurd (ground (arith, taken, free))
