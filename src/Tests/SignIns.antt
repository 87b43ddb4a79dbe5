-- ===== src/Tests/SignIns.antt =====
-- Signing in, against a server in memory.
use matata_backend.Common.{
  ◌≢◌, Result, ◌≤◌, String, ◌≡◌, refl, Bool, true, Option, none, some, List, [], ◌∷◌, ok, err, leb,
  if◌then◌else◌, arith,
}
use matata_backend.Auth.Redis.{Role, reporter, Key, Entry, Value}
use matata_backend.Auth.Redis.Memory.{memory_redis, memory_redis-IsLawful}
use matata_backend.Auth.RateLimit.{invalid_token}
use matata_backend.Auth.RateLimit.Window.{accepted, accepted-window}
use matata_backend.Auth.Tokens.{
  Claims, Jwt, IsLawfulJwt, Settings, build_access_token, rotate_refresh_token, logout, deny,
  verify_access_token,
}
use matata_backend.Auth.Tokens.Use.{rotate_once, logout_revokes}
use matata_backend.Auth.Accounts.{
  AnalystAccount, AccountError, new_account, hash_taken, lookup_analyst_account,
  register_analyst_account,
}
use matata_backend.Auth.Accounts.Registered.{relabel, deactivate, run_accounts, register_once}
use matata_backend.Auth.Otp.{send_otp, mismatch, sign_in, verify_otp}
use matata_backend.Auth.Otp.SignIn.{verify_otp-send_otp}
use matata_backend.Auth.Otp.Guesses.{OtpEvent, resend, guess, wrong_guesses, wrong_guesses-bound}

abbrev empty_server : Key → Option Entry
empty_server k = none

abbrev settings : Settings
settings = record {
  access_token_expire_minutes = 15;
  refresh_token_expire_days = 7;
  production = true;
}

accepted-window_example : accepted memory_redis "login" 2 60 (0 ∷ 10 ∷ 20 ∷ 5 ∷ []) empty_server ≡ 2
accepted-window_example =
    accepted-window memory_redis memory_redis-IsLawful "login" 2 60 0 (10 ∷ 20 ∷ 5 ∷ [])
      empty_server refl (omega arith)

-- Tokens that are not encoded at all: a token is its claims.
abbrev plain : Jwt
plain = record {
  Token = Claims;
  encode = λ c. c;
  decode = λ now c. elim c.exp [ none ↦ some c | some exp ↦ if leb now exp then some c else none ];
}

plain-IsLawfulJwt : IsLawfulJwt plain
plain-IsLawfulJwt = record {
  decode-encode = λ now exp c e le. ground arith;
  decode_later = λ now d token c e. ground arith;
  decode_late = λ now exp token c e f. ground arith;
}

abbrev claims : Claims
claims = record {
  sub = "s";
  role = reporter;
  tier = 1;
  jti = some "j";
  iat = 100;
  exp = some 1000;
  region_geojson = none;
}

-- A server that holds a refresh token.
abbrev one_session : Key → Option Entry
one_session k = elim k [
  | Key.refresh_key t ↦ some (record {
    value = Value.session (record { sub = "s"; role = reporter; tier = 1; region_geojson = none });
    ttl = some 604800;
  })
  | _ ↦ none
]

rotate_once_example :
    (rotate_refresh_token memory_redis plain settings "old" "j2" "new2" 300 (
      memory_redis.wait 60
        (rotate_refresh_token memory_redis plain settings "old" "j1" "new" 200 one_session).1)).0
    ≡ err invalid_token
rotate_once_example =
    rotate_once memory_redis memory_redis-IsLawful plain settings "old" "j1" "new" 200 one_session
      refl 60 "j2" "new2" 300

signed_out : (logout memory_redis plain claims 200 empty_server).0 ≡ ok tt
unfolding logout deny
signed_out = ground arith

logout_revokes_example :
    verify_access_token memory_redis plain claims 300
      (memory_redis.wait 100 (logout memory_redis plain claims 200 empty_server).1)
    ≡ err invalid_token
logout_revokes_example =
    logout_revokes memory_redis memory_redis-IsLawful plain plain-IsLawfulJwt claims 200 100 claims
      1000 empty_server refl refl signed_out (omega arith)

-- The hash and the gateway of the runs: the number itself, and one that always delivers.
abbrev hash : String → String
hash s = s

abbrev gateway : String → String → Bool
gateway number code = true

abbrev code_sent : Key → Option Entry
code_sent =
    memory_redis.wait 60 (send_otp memory_redis hash gateway true "+254" "123456" empty_server).1

verify_otp-send_otp_example :
    (verify_otp memory_redis plain settings hash "+254" "123456" none 1 "j" "t" 500 code_sent).0
    ≡ ok (
      build_access_token memory_redis plain settings "+254" reporter 1 none "j" 500,
      "t",
      reporter,
    )
verify_otp-send_otp_example =
    verify_otp-send_otp memory_redis memory_redis-IsLawful plain settings hash gateway "+254"
      "123456" none 1 "j" "t" 500 60 empty_server refl (omega arith) (omega arith)

abbrev attack : List OtpEvent
attack =
    resend 0 "123456"
    ∷ guess 1 "000000"
    ∷ guess 1 "000001"
    ∷ guess 1 "000002"
    ∷ resend 9 "654321"
    ∷ guess 1 "000003"
    ∷ guess 1 "000004"
    ∷ guess 1 "000005"
    ∷ guess 1 "000006"
    ∷ []

wrong_guesses-bound_example :
    wrong_guesses memory_redis plain settings hash gateway true "+254" none 1 "j" "t" 500 attack
      empty_server
    ≤ 5
wrong_guesses-bound_example =
    wrong_guesses-bound memory_redis memory_redis-IsLawful plain settings hash gateway true "+254"
      none 1 "j" "t" 500 attack empty_server refl (omega arith)

-- Five of the six wrong codes are compared; the sixth meets the lock.
attack_run :
    wrong_guesses memory_redis plain settings hash gateway true "+254" none 1 "j" "t" 500 attack
      empty_server
    ≡ 5
unfolding verify_otp mismatch send_otp sign_in
attack_run = refl

-- An analyst is registered, relabelled and deactivated, and cannot be registered again.
abbrev registration : Result AccountError AnalystAccount × List AnalystAccount
registration = register_analyst_account hash hash hash "a@b" Role.analyst "admin" none none 1 []

registered : registration.0 ≡ ok (new_account "a@b" Role.analyst "admin" none none 1)
unfolding register_analyst_account lookup_analyst_account hash_taken
registered = refl

register_once_example :
    let db' =
      run_accounts hash hash hash (relabel 1 (some "ops") ∷ deactivate 1 ∷ []) registration.1 in
    (register_analyst_account hash hash hash "a@b" Role.admin "admin" none none 2 db').0
    ≢ ok (new_account "a@b" Role.admin "admin" none none 2)
register_once_example =
    register_once hash hash hash "a@b" Role.analyst "admin" none none 1 []
      (new_account "a@b" Role.analyst "admin" none none 1) registered
      (relabel 1 (some "ops") ∷ deactivate 1 ∷ []) Role.admin "admin" none none 2
      (new_account "a@b" Role.admin "admin" none none 2)
