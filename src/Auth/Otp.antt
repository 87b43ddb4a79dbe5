-- ===== src/Auth/Otp.antt =====
-- Signing in with a code sent by text message: `send_otp` and `verify_otp` of
-- app/services/auth_service.py. The hash, the SMS gateway (`false` for its SMSDeliveryError), the random
-- code and identifiers and the clock are arguments.
pub mod Guesses
pub mod SignIn
use matata_backend.Common.{
  ℕ, String, Bool, true, false, not, ◌&&◌, Option, none, some, List, [], ◌∷◌, Result, ok, err, leb,
  ◌==◌, ◌same_as◌, if◌then◌else◌, is_some,
}
use matata_backend.Auth.Redis.{
  Redis, Entry, Role, reporter, text, count, session, otp_key, otp_attempts_key,
}
use matata_backend.Auth.Accounts.{AnalystAccount, lookup_analyst_account}
use matata_backend.Auth.RateLimit.{
  AuthError, invalid_otp, otp_locked_out, otp_not_found, sms_delivery, count_of,
}
use matata_backend.Auth.Tokens.{Jwt, Settings, build_access_token, issue_refresh_token}

abbrev pub otp_ttl_seconds : ℕ
otp_ttl_seconds = 300

abbrev pub otp_max_attempts : ℕ
otp_max_attempts = 5

abbrev pub otp_lockout_seconds : ℕ
otp_lockout_seconds = 900

-- TEST_PHONE_OTPS.
abbrev pub test_phone_otp : String → Option String
test_phone_otp phone =
    if phone same_as "+10000000001"
    then some "111111"
    else (if phone same_as "+10000000002" then some "222222" else none)

-- The text that a key holds.
abbrev pub text_of : Option Entry → Option String
text_of none = none
text_of (some e) = elim e.value [ text t ↦ some t | count n ↦ none | session s ↦ none ]

-- The role, the tier and the region of the tokens: those of the account if there is one.
abbrev pub identity : Option AnalystAccount → ℕ → Role × ℕ × Option String
identity none tier = (reporter, tier, none)
identity (some a) tier = (a.role, 0, a.region_geojson)

-- The account of a hash, if the call brings a database.
abbrev pub account_of : String → Option (List AnalystAccount) → Option AnalystAccount
account_of id_hash none = none
account_of id_hash (some accounts) = lookup_analyst_account id_hash accounts

module _ (R : Redis) (hash_identifier : String → String) (gateway : String → String → Bool)
    (production : Bool) where
  unfoldable pub send_otp : String → String → R.State → Result AuthError (Unit {0}) × R.State
  send_otp phone_number generated st =
      let key = otp_key (hash_identifier phone_number) in
      let sent = R.set key (text generated) otp_ttl_seconds st in
      let dispatched =
        if gateway phone_number generated
        then (ok tt, sent)
        else (err sms_delivery, R.delete key sent) in
      if production then dispatched else elim (test_phone_otp phone_number) [
        | none ↦ dispatched
        | some code ↦ (ok tt, R.set key (text code) otp_ttl_seconds st)
      ]

module _ (R : Redis) (J : Jwt) (settings : Settings) (hash_identifier : String → String) where
  -- A wrong code: one more attempt; the first of them starts the time to live of the counter.
  unfoldable pub mismatch : String → R.State → R.State
  mismatch id_hash st =
      let key = otp_attempts_key id_hash in
      let st1 = R.incr key st in
      if count_of (R.entry st1 key) == 1 then R.expire key otp_lockout_seconds st1 else st1

  -- A right code: it is deleted with its attempts, and tokens are issued.
  unfoldable pub sign_in :
      String
      → Option (List AnalystAccount)
      → ℕ
      → String
      → String
      → ℕ
      → R.State
      → Result AuthError (J.Token × String × Role) × R.State
  sign_in id_hash db tier jti token_id now st =
      let st1 = R.delete (otp_attempts_key id_hash) (R.delete (otp_key id_hash) st) in
      let (role, resolved_tier, region) = identity (account_of id_hash db) tier in
      let access = build_access_token R J settings id_hash role resolved_tier region jti now in
      (
        ok (access, token_id, role),
        issue_refresh_token R J settings id_hash role resolved_tier region token_id st1,
      )

  unfoldable pub verify_otp :
      String
      → String
      → Option (List AnalystAccount)
      → ℕ
      → String
      → String
      → ℕ
      → R.State
      → Result AuthError (J.Token × String × Role) × R.State
  verify_otp phone_number otp_code db tier jti token_id now st =
      let id_hash = hash_identifier phone_number in
      if leb otp_max_attempts (count_of (R.entry st (otp_attempts_key id_hash)))
      then (err otp_locked_out, st)
      else elim (text_of (R.entry st (otp_key id_hash))) [
        | none ↦ (err otp_not_found, st)
        | some stored ↦
            if stored same_as otp_code
            then sign_in id_hash db tier jti token_id now st
            else (err invalid_otp, mismatch id_hash st)
      ]
