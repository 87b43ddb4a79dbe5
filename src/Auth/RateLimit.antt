-- ===== src/Auth/RateLimit.antt =====
-- `check_rate_limit` of app/services/auth_service.py.
pub mod Window
use matata_backend.Common.{
  ℕ, String, Bool, true, false, Option, none, some, Result, ok, err, ltb, ◌==◌, if◌then◌else◌,
}
use matata_backend.Auth.Redis.{Redis, Entry, count, text, session, rate_limit_key}

-- The exceptions of the service.
pub data AuthError : Type 0 where
  invalid_token invalid_otp otp_locked_out otp_not_found rate_limited sms_delivery : AuthError
  -- a stored payload that cannot be read back
  malformed_payload : AuthError

-- The number in a counter, 0 if there is none.
abbrev pub count_of : Option Entry → ℕ
count_of none = 0
count_of (some e) = elim e.value [ count n ↦ n | text s ↦ 0 | session s ↦ 0 ]

module _ (R : Redis) where
  unfoldable pub check_rate_limit : String → ℕ → ℕ → R.State → Result AuthError (Unit {0}) × R.State
  check_rate_limit bucket limit window_seconds st =
      let key = rate_limit_key bucket in
      let st1 = R.incr key st in
      let n = count_of (R.entry st1 key) in
      let st2 = if n == 1 then R.expire key window_seconds st1 else st1 in
      if ltb limit n then (err rate_limited, st2) else (ok tt, st2)
