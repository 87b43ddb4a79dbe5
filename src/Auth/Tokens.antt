-- ===== src/Auth/Tokens.antt =====
-- The access and refresh tokens of app/services/auth_service.py. JSON web tokens are signed and read
-- by a library: `Jwt` is its interface, and its laws say that a token which is read gives the same
-- claims whenever it is read, and none after its `exp`. Random identifiers and the clock are arguments.
pub mod Use
use matata_backend.Common.{
  ℕ, ◌+◌, ◌*◌, ◌-◌, ◌≤◌, ◌<◌, max, String, ◌≡◌, ◌⊎◌, Bool, true, false, ◌&&◌, not, Option, none,
  some, Result, ok, err, truthy, is_some, ltb, if◌then◌else◌,
}
use matata_backend.Auth.Redis.{
  Redis, Entry, Role, Session, text, count, session, refresh_key, denylist_key,
}
use matata_backend.Auth.RateLimit.{AuthError, invalid_token, malformed_payload}

pub record Claims : Type 0 where
  pub sub : String
  pub role : Role
  pub tier : ℕ
  pub jti : Option String
  pub iat : ℕ
  pub exp : Option ℕ
  pub region_geojson : Option String

pub record Jwt : Type 1 where
  pub Token : Type 0
  pub encode : Claims → Token
  -- at this time; `none` for a JWTError
  pub decode : ℕ → Token → Option Claims

pub record IsLawfulJwt (J : Jwt) : Type 0 where
  pub decode-encode :
      (now exp : ℕ) (c : Claims) → c.exp ≡ some exp → now ≤ exp → J.decode now (J.encode c) ≡ some c
  pub decode_later :
      (now d : ℕ) (token : J.Token) (c : Claims)
      → J.decode now token ≡ some c
      → (J.decode (now + d) token ≡ some c) ⊎ (J.decode (now + d) token ≡ none)
  pub decode_late :
      (now exp : ℕ) (token : J.Token) (c : Claims)
      → J.decode now token ≡ some c
      → c.exp ≡ some exp
      → now ≤ exp

pub record Settings : Type 0 where
  pub access_token_expire_minutes : ℕ
  pub refresh_token_expire_days : ℕ
  pub production : Bool

-- An optional text, kept only if it is not empty.
abbrev pub if_truthy : Option String → Option String
if_truthy o = if truthy o then o else none

-- The truth value of an optional number.
abbrev nonzero : Option ℕ → Bool
nonzero none = false
nonzero (some n) = ltb 0 n

-- The session that a key holds.
abbrev pub session_of : Option Entry → Option Session
session_of none = none
session_of (some e) = elim e.value [ session s ↦ some s | text t ↦ none | count n ↦ none ]

module _ (R : Redis) (J : Jwt) (settings : Settings) where
  unfoldable pub build_access_token : String → Role → ℕ → Option String → String → ℕ → J.Token
  build_access_token sub role tier region_geojson jti now = J.encode (record {
    sub = sub;
    role = role;
    tier = tier;
    jti = some jti;
    iat = now;
    exp = some (now + 60 * settings.access_token_expire_minutes);
    region_geojson = if_truthy region_geojson;
  })

  unfoldable pub issue_refresh_token :
      String → Role → ℕ → Option String → String → R.State → R.State
  issue_refresh_token sub role tier region_geojson token_id st =
      R.set (refresh_key token_id)
        (session (record {
          sub = sub;
          role = role;
          tier = tier;
          region_geojson = if_truthy region_geojson;
        }))
        (settings.refresh_token_expire_days * 86400) st

  -- What GETDEL found at the key: the new pair of tokens is issued from it.
  unfoldable pub rotate_from :
      Option Entry → String → String → ℕ → R.State → Result AuthError (J.Token × String) × R.State
  rotate_from none jti token_id now st = (err invalid_token, st)
  rotate_from (some e) jti token_id now st = elim (session_of (some e)) [
    | none ↦ (err malformed_payload, st)
    | some s ↦
        let access = build_access_token s.sub s.role s.tier s.region_geojson jti now in
        (
          ok (access, token_id),
          issue_refresh_token s.sub s.role s.tier s.region_geojson token_id st,
        )
  ]

  unfoldable pub rotate_refresh_token :
      String → String → String → ℕ → R.State → Result AuthError (J.Token × String) × R.State
  rotate_refresh_token refresh_token jti token_id now st =
      rotate_from (R.entry st (refresh_key refresh_token)) jti token_id now
        (R.delete (refresh_key refresh_token) st)

-- The seconds that a token which expires then has left.
abbrev pub remaining : Option ℕ → ℕ → ℕ
remaining none now = 1
remaining (some exp) now = max (exp - now) 1

module _ (R : Redis) (J : Jwt) where
  unfoldable pub deny : Claims → ℕ → R.State → Result AuthError (Unit {0}) × R.State
  deny c now st = elim c.jti [
    | none ↦ (err invalid_token, st)
    | some jti ↦
        if truthy (some jti) && nonzero c.exp
        then (ok tt, R.set (denylist_key jti) (text "1") (remaining c.exp now) st)
        else (err invalid_token, st)
  ]

  unfoldable pub logout : J.Token → ℕ → R.State → Result AuthError (Unit {0}) × R.State
  logout token now st = elim (J.decode now token) [
    | none ↦ (err invalid_token, st)
    | some c ↦ deny c now st
  ]

  -- Whether the denylist holds the identifier of a token.
  abbrev pub is_denied : Option String → R.State → Bool
  is_denied none st = false
  is_denied (some jti) st = truthy (some jti) && is_some (R.entry st (denylist_key jti))

  unfoldable pub verify_access_token : J.Token → ℕ → R.State → Result AuthError Claims
  verify_access_token token now st = elim (J.decode now token) [
    | none ↦ err invalid_token
    | some c ↦ if is_denied c.jti st then err invalid_token else ok c
  ]
