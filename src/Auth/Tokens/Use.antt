-- ===== src/Auth/Tokens/Use.antt =====
-- Tokens that are used again: after a rotation, and after signing out.
use matata_backend.Common.{
  ℕ, ◌+◌, ◌*◌, ◌<◌, String, max, truthy, Bool-cases, ◌≡◌, ◌≢◌, inl, inr, true, false, Option-cases,
  Option, none, some, ok, err, refl, arith, ◌same_as◌,
}
use matata_backend.Auth.Redis.{
  Value, Redis, IsLawful, Entry, refresh_key, denylist_key, key_eq_refl,
}
use matata_backend.Auth.RateLimit.{invalid_token}
use matata_backend.Auth.Tokens.{
  Claims, Jwt, IsLawfulJwt, Settings, if_truthy, session_of, issue_refresh_token, rotate_from,
  rotate_refresh_token, remaining, deny, logout, is_denied, verify_access_token,
}

module _ (R : Redis) (laws : IsLawful R) (J : Jwt) (settings : Settings) where
  -- The key of a token, after the token has been taken and another has been issued.
  rotated :
      (token jti token_id : String) (now : ℕ) (o : Option Entry) (st : R.State)
      → (token same_as token_id) ≡ false
      → R.entry st (refresh_key token) ≡ none
      → R.entry (rotate_from R J settings o jti token_id now st).1 (refresh_key token) ≡ none
  unfolding rotate_from issue_refresh_token
  rotated token jti token_id now none st fresh e = e
  rotated token jti token_id now (some x) st fresh e = elim (Option-cases (session_of (some x))) [
    | inl n ↦ rw (n, rotate_from) e
    | inr (s, q) ↦
        rw (q, rotate_from)
          (ground (
            arith,
            laws.entry-set (refresh_key token) (refresh_key token_id)
                (Value.session (record {
                  sub = s.sub;
                  role = s.role;
                  tier = s.tier;
                  region_geojson = if_truthy s.region_geojson;
                }))
                (settings.refresh_token_expire_days * 86400) st,
            fresh,
            e,
          ))
  ]

  spent :
      (token jti token_id : String) (now d : ℕ) (st : R.State)
      → (token same_as token_id) ≡ false
      → R.entry
          (R.wait d (rotate_refresh_token R J settings token jti token_id now st).1)
          (refresh_key token)
        ≡ none
  unfolding rotate_refresh_token
  spent token jti token_id now d st fresh =
      let deleted : R.entry (R.delete (refresh_key token) st) (refresh_key token) ≡ none = ground (
        arith,
        laws.entry-delete (refresh_key token) (refresh_key token) st,
        key_eq_refl (refresh_key token),
      ) in
      let kept =
        rotated token jti token_id now (R.entry st (refresh_key token))
          (R.delete (refresh_key token) st) fresh deleted in
      ground (
        arith,
        laws.entry-wait (refresh_key token) d (
            (rotate_from R J settings (R.entry st (refresh_key token)) jti token_id now
              (R.delete (refresh_key token) st)).1),
        kept,
      )

  -- A refresh token is spent by its first use, whatever that use gives: when the identifier that it
  -- brought is another one, then the old token is refused however much later it is used again.
  pub rotate_once :
      (token jti token_id : String) (now : ℕ) (st : R.State)
      → (token same_as token_id) ≡ false
      → (d : ℕ) (jti' token_id' : String) (now' : ℕ)
      → let later = R.wait d (rotate_refresh_token R J settings token jti token_id now st).1 in
        (rotate_refresh_token R J settings token jti' token_id' now' later).0 ≡ err invalid_token
  unfolding rotate_refresh_token rotate_from
  rotate_once token jti token_id now st fresh d jti' token_id' now' =
      rw (spent token jti token_id now d st fresh) refl

module _ (R : Redis) (laws : IsLawful R) (J : Jwt) (jl : IsLawfulJwt J) where
  denied :
      (jti : String) (ttl now d : ℕ) (st : R.State)
      → truthy (some jti) ≡ true
      → d < ttl
      → is_denied R J (some jti) (R.wait d (R.set (denylist_key jti) (Value.text "1") ttl st))
        ≡ true
  denied jti ttl now d st t lt = ground (
    arith,
    t,
    key_eq_refl (denylist_key jti),
    laws.entry-wait (denylist_key jti) d (R.set (denylist_key jti) (Value.text "1") ttl st),
    laws.entry-set (denylist_key jti) (denylist_key jti) (Value.text "1") ttl st,
  )

  deny-denied :
      (c : Claims) (now d exp : ℕ) (st : R.State)
      → c.exp ≡ some exp
      → now + d < max exp (now + 1)
      → (deny R J c now st).0 ≡ ok tt
      → is_denied R J c.jti (R.wait d (deny R J c now st).1) ≡ true
  unfolding deny
  deny-denied c now d exp st e lt done = elim (Option-cases c.jti) [
    | inl n ↦ absurd (ground (arith, rw n at done))
    | inr (jti, q) ↦ elim (Bool-cases (truthy (some jti))) [
      | inl t ↦ rw q (rw (t, e) (ground (arith, denied jti (remaining c.exp now) now d st t)))
      | inr f ↦ absurd (ground (arith, rw (q, f) at done))
    ]
  ]

  -- Signing out: from the second of the sign-out on, the token is refused at every time but its
  -- last second: the entry of the denylist ends with the second in which the token still counts.
  pub logout_revokes :
      (token : J.Token) (now d : ℕ) (c : Claims) (exp : ℕ) (st : R.State)
      → J.decode now token ≡ some c
      → c.exp ≡ some exp
      → (logout R J token now st).0 ≡ ok tt
      → now + d ≢ exp
      → verify_access_token R J token (now + d) (R.wait d (logout R J token now st).1)
        ≡ err invalid_token
  unfolding logout deny verify_access_token
  logout_revokes token now d c exp st read e done other =
      elim (jl.decode_later now d token c read) [
        | inl same ↦
            let soon : now + d < max exp (now + 1) =
              let le = jl.decode_late (now + d) exp token c same e in ground (arith, other, le) in
            let denied_then = deny-denied c now d exp st e soon (rw (read, logout) at done) in
            rw (same, verify_access_token) (rw (read, logout) (rw denied_then refl))
        | inr late ↦ rw (late, verify_access_token) refl
      ]
