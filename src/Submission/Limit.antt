-- ===== src/Submission/Limit.antt =====
-- The hourly limit on submissions: `_check_rate_limit` of app/services/submission_service.py, over the
-- counters that Redis keeps. Times are seconds.
use matata_backend.Common.{
  ℕ, ◌+◌, String, Bool, false, not, Option, none, some, ltb, ◌==◌, ◌same_as◌, if◌then◌else◌,
}

-- A counter, and when it expires if it does.
pub record Counter : Type 0 where
  pub count : ℕ
  pub expires_at : Option ℕ

-- The counters, by the hash of the reporter's token.
abbrev pub Counters : Type 0
Counters = String → Option Counter

abbrev has_expired : ℕ → Counter → Bool
has_expired now c = elim c.expires_at [ none ↦ false | some t ↦ not (ltb now t) ]

-- INCR: a counter that is missing or has expired starts at 1, without an expiry.
abbrev incr : ℕ → Option Counter → Counter
incr now none = record { count = 1; expires_at = none }
incr now (some c) =
    if has_expired now c
    then record { count = 1; expires_at = none }
    else record c { count = c.count + 1 }

-- EXPIRE, on the first submission of a window.
abbrev start_window : ℕ → Counter → Counter
start_window now c = if c.count == 1 then record c { expires_at = some (now + 3600) } else c

abbrev set_counter : String → Counter → Counters → Counters
set_counter key c counters other = if other same_as key then some c else counters other

-- Whether the submission is within the limit, and the counters after it.
unfoldable pub check_rate_limit : ℕ → ℕ → String → Counters → Bool × Counters
check_rate_limit limit now token_hash counters =
    let c = start_window now (incr now (counters token_hash)) in
    (not (ltb limit c.count), set_counter token_hash c counters)
