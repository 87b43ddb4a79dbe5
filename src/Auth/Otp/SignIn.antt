-- ===== src/Auth/Otp/SignIn.antt =====
-- `send_otp` and `verify_otp` one after the other.
use matata_backend.Common.{
  ℕ, ◌*◌, ◌≤◌, ◌<◌, String, ◌≡◌, refl, Bool, true, false, Option, none, some, List, ok, err, leb,
  arith, same_as_refl,
}
use matata_backend.Auth.Redis.{
  Redis, IsLawful, Entry, Value, Role, otp_key, otp_attempts_key, refresh_key, key_eq_refl, aged,
}
use matata_backend.Auth.RateLimit.{otp_not_found, count_of}
use matata_backend.Auth.Tokens.{Jwt, Settings, if_truthy, build_access_token, issue_refresh_token}
use matata_backend.Auth.Accounts.{AnalystAccount}
use matata_backend.Auth.Otp.{
  otp_ttl_seconds, otp_max_attempts, identity, account_of, text_of, send_otp, sign_in, verify_otp,
}

module _ (R : Redis) (laws : IsLawful R) (J : Jwt) (settings : Settings)
    (hash : String → String) where
  -- After signing in, and any pause, the number has neither a code nor attempts.
  signed_in :
      (id : String) (db : Option (List AnalystAccount)) (tier : ℕ) (jti token_id : String)
      (now d : ℕ) (st : R.State)
      → let later = R.wait d (sign_in R J settings hash id db tier jti token_id now st).1 in
        (R.entry later (otp_key id) ≡ none) × (R.entry later (otp_attempts_key id) ≡ none)
  unfolding sign_in issue_refresh_token
  signed_in id db tier jti token_id now d st =
      let (role, resolved_tier, region) = identity (account_of id db) tier in
      let payload = Value.session (record {
        sub = id;
        role = role;
        tier = resolved_tier;
        region_geojson = if_truthy region;
      }) in
      let ttl = settings.refresh_token_expire_days * 86400 in
      let st1 = R.delete (otp_key id) st in
      let st2 = R.delete (otp_attempts_key id) st1 in
      let st3 = R.set (refresh_key token_id) payload ttl st2 in
      (
        ground (
          arith,
          laws.entry-wait (otp_key id) d st3,
          laws.entry-set (otp_key id) (refresh_key token_id) payload ttl st2,
          laws.entry-delete (otp_key id) (otp_attempts_key id) st1,
          laws.entry-delete (otp_key id) (otp_key id) st,
          key_eq_refl (otp_key id),
        ),
        ground (
          arith,
          laws.entry-wait (otp_attempts_key id) d st3,
          laws.entry-set (otp_attempts_key id) (refresh_key token_id) payload ttl st2,
          laws.entry-delete (otp_attempts_key id) (otp_attempts_key id) st1,
          key_eq_refl (otp_attempts_key id),
        ),
      )

  verified :
      (phone code : String) (db : Option (List AnalystAccount)) (tier : ℕ) (jti token_id : String)
      (now : ℕ) (st : R.State)
      → (got : J.Token × String × Role)
      → (verify_otp R J settings hash phone code db tier jti token_id now st).0 ≡ ok got
      → verify_otp R J settings hash phone code db tier jti token_id now st
        ≡ sign_in R J settings hash (hash phone) db tier jti token_id now st
  unfolding verify_otp
  verified phone code db tier jti token_id now st got e = ground (arith, e)

  without_code :
      (phone code : String) (db : Option (List AnalystAccount)) (tier : ℕ) (jti token_id : String)
      (now : ℕ) (st : R.State)
      → R.entry st (otp_key (hash phone)) ≡ none
      → R.entry st (otp_attempts_key (hash phone)) ≡ none
      → (verify_otp R J settings hash phone code db tier jti token_id now st).0 ≡ err otp_not_found
  unfolding verify_otp
  without_code phone code db tier jti token_id now st e f = rw (f, e) refl

  -- A code signs in once: when a call of `verify_otp` has signed in, the next one for the number is
  -- answered that there is no code, whatever it brings and however much later it comes.
  pub verify_otp_once :
      (phone code : String) (db : Option (List AnalystAccount)) (tier : ℕ) (jti token_id : String)
      (now : ℕ) (st : R.State)
      → (got : J.Token × String × Role)
      → (verify_otp R J settings hash phone code db tier jti token_id now st).0 ≡ ok got
      → (d : ℕ) (code' : String) (db' : Option (List AnalystAccount)) (tier' : ℕ)
        (jti' token_id' : String) (now' : ℕ)
      → (verify_otp R J settings hash phone code' db' tier' jti' token_id' now'
          (R.wait d (verify_otp R J settings hash phone code db tier jti token_id now st).1)).0
        ≡ err otp_not_found
  verify_otp_once phone code db tier jti token_id now st got e d code' db' tier' jti' token_id'
        now' =
      let (no_otp, no_attempts) = signed_in (hash phone) db tier jti token_id now d st in
      rw (verified phone code db tier jti token_id now st got e) (
        without_code phone code' db' tier' jti' token_id' now'
          (R.wait d (sign_in R J settings hash (hash phone) db tier jti token_id now st).1) no_otp
          no_attempts)

  count_of-aged : (n : ℕ) (o : Option Entry) → count_of (aged n o) ≤ count_of o
  count_of-aged n o = ground arith

  right_code :
      (phone code : String) (db : Option (List AnalystAccount)) (tier : ℕ) (jti token_id : String)
      (now : ℕ) (st : R.State)
      → text_of (R.entry st (otp_key (hash phone))) ≡ some code
      → count_of (R.entry st (otp_attempts_key (hash phone))) < otp_max_attempts
      → verify_otp R J settings hash phone code db tier jti token_id now st
        ≡ sign_in R J settings hash (hash phone) db tier jti token_id now st
  unfolding verify_otp
  right_code phone code db tier jti token_id now st e few =
      let few' : leb otp_max_attempts (count_of (R.entry st (otp_attempts_key (hash phone))))
          ≡ false =
        ground arith in
      rw few' (rw e (rw (same_as_refl code) refl))

  -- A code that was sent can be used: within its five minutes, and with fewer than five wrong
  -- attempts on record, the number signs in with the code that `send_otp` generated in production, as
  -- the role of its account or as a reporter.
  pub verify_otp-send_otp :
      (gateway : String → String → Bool)
      → (phone code : String) (db : Option (List AnalystAccount)) (tier : ℕ) (jti token_id : String)
        (now d : ℕ) (st : R.State)
      → gateway phone code ≡ true
      → d < otp_ttl_seconds
      → count_of (R.entry st (otp_attempts_key (hash phone))) < otp_max_attempts
      → let later = R.wait d (send_otp R hash gateway true phone code st).1 in
        let (role, resolved_tier, region) = identity (account_of (hash phone) db) tier in
        (verify_otp R J settings hash phone code db tier jti token_id now later).0
        ≡ ok (
          build_access_token R J settings (hash phone) role resolved_tier region jti now,
          token_id,
          role,
        )
  unfolding send_otp sign_in
  verify_otp-send_otp gateway phone code db tier jti token_id now d st delivered soon few =
      let sent = R.set (otp_key (hash phone)) (Value.text code) otp_ttl_seconds st in
      let few' : count_of (R.entry (R.wait d sent) (otp_attempts_key (hash phone)))
          < otp_max_attempts =
        let older = count_of-aged d (R.entry st (otp_attempts_key (hash phone))) in
        ground (
          arith,
          laws.entry-wait (otp_attempts_key (hash phone)) d sent,
          laws.entry-set (otp_attempts_key (hash phone)) (otp_key (hash phone)) (Value.text code)
              otp_ttl_seconds st,
          older,
          few,
        ) in
      let there : text_of (R.entry (R.wait d sent) (otp_key (hash phone))) ≡ some code = ground (
        arith,
        laws.entry-wait (otp_key (hash phone)) d sent,
        laws.entry-set (otp_key (hash phone)) (otp_key (hash phone)) (Value.text code)
            otp_ttl_seconds st,
        key_eq_refl (otp_key (hash phone)),
        soon,
      ) in
      rw delivered
        (rw (right_code phone code db tier jti token_id now (R.wait d sent) there few') refl)
