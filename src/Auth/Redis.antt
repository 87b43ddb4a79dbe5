-- ===== src/Auth/Redis.antt =====
-- The Redis server that app/services/auth_service.py talks to, as an interface: the commands that the
-- service sends, and the passing of time. The laws are the documented meaning of the commands, in
-- terms of what each key holds and for how many more seconds.
pub mod Memory
use matata_backend.Common.{
  ℕ, ◌+◌, ◌-◌, String, ◌≡◌, refl, Bool, true, false, Option, none, some, leb, ◌same_as◌,
  same_as_refl, if◌then◌else◌,
}

pub data Role : Type 0 where
  anonymous_reporter reporter analyst responder admin : Role

-- The JSON payload that `_issue_refresh_token` stores.
pub record Session : Type 0 where
  pub sub : String
  pub role : Role
  pub tier : ℕ
  pub region_geojson : Option String

-- `_otp_key`, `_otp_attempts_key`, `_refresh_key`, `_denylist_key` and `_rate_limit_key`: their
-- prefixes keep the five kinds apart.
pub data Key : Type 0 where
  otp_key otp_attempts_key refresh_key denylist_key rate_limit_key : String → Key

pub data Value : Type 0 where
  text : String → Value
  count : ℕ → Value
  session : Session → Value

-- A value, and the seconds that it still lives if it expires.
pub record Entry : Type 0 where
  pub value : Value
  pub ttl : Option ℕ

abbrev pub key_eq : Key → Key → Bool
key_eq (otp_key a) (otp_key b) = a same_as b
key_eq (otp_attempts_key a) (otp_attempts_key b) = a same_as b
key_eq (refresh_key a) (refresh_key b) = a same_as b
key_eq (denylist_key a) (denylist_key b) = a same_as b
key_eq (rate_limit_key a) (rate_limit_key b) = a same_as b
key_eq _ _ = false

pub key_eq_refl : (k : Key) → key_eq k k ≡ true
key_eq_refl (otp_key a) = same_as_refl a
key_eq_refl (otp_attempts_key a) = same_as_refl a
key_eq_refl (refresh_key a) = same_as_refl a
key_eq_refl (denylist_key a) = same_as_refl a
key_eq_refl (rate_limit_key a) = same_as_refl a

-- INCR: a missing counter starts from 0 and does not expire; a counter keeps its time to live.
abbrev pub incremented : Option Entry → Option Entry
incremented none = some (record { value = count 1; ttl = none })
incremented (some e) = elim e.value [
  | count n ↦ some (record { value = count (n + 1); ttl = e.ttl })
  | text s ↦ some e
  | session s ↦ some e
]

-- EXPIRE: sets the time to live of a key that is there.
abbrev pub expiring : ℕ → Option Entry → Option Entry
expiring s none = none
expiring s (some e) = some (record { value = e.value; ttl = some s })

-- So many seconds later.
abbrev pub aged : ℕ → Option Entry → Option Entry
aged n none = none
aged n (some e) = elim e.ttl [
  | none ↦ some e
  | some t ↦ if leb t n then none else some (record { value = e.value; ttl = some (t - n) })
]

pub record Redis : Type 1 where
  pub State : Type 0
  -- GET and EXISTS, with TTL
  pub entry : State → Key → Option Entry
  -- SET key value EX seconds
  pub set : Key → Value → ℕ → State → State
  -- DEL
  pub delete : Key → State → State
  pub incr : Key → State → State
  pub expire : Key → ℕ → State → State
  -- seconds pass
  pub wait : ℕ → State → State

pub record IsLawful (R : Redis) : Type 0 where
  pub entry-set :
      (j k : Key) (v : Value) (s : ℕ) (st : R.State)
      → R.entry (R.set k v s st) j
        ≡ (if key_eq j k then some (record { value = v; ttl = some s }) else R.entry st j)
  pub entry-delete :
      (j k : Key) (st : R.State)
      → R.entry (R.delete k st) j ≡ (if key_eq j k then none else R.entry st j)
  pub entry-incr :
      (j k : Key) (st : R.State)
      → R.entry (R.incr k st) j ≡ (if key_eq j k then incremented (R.entry st k) else R.entry st j)
  pub entry-expire :
      (j k : Key) (s : ℕ) (st : R.State)
      → R.entry (R.expire k s st) j
        ≡ (if key_eq j k then expiring s (R.entry st k) else R.entry st j)
  pub entry-wait :
      (j : Key) (n : ℕ) (st : R.State) → R.entry (R.wait n st) j ≡ aged n (R.entry st j)
