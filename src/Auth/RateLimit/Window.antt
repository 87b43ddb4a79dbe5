-- ===== src/Auth/RateLimit/Window.antt =====
-- Calls of `check_rate_limit` with pauses between them.
use matata_backend.Common.{
  ℕ, ◌+◌, ◌-◌, ◌≤◌, ◌<◌, min, String, ◌≡◌, Option, none, some, List, [], ◌∷◌, ok, err, ltb,
  if◌then◌else◌, arith,
}
use matata_backend.Common.Lists.{length}
use matata_backend.Auth.Redis.{Redis, IsLawful, Entry, count, rate_limit_key, key_eq_refl}
use matata_backend.Auth.RateLimit.{rate_limited, check_rate_limit}

abbrev sum : List ℕ → ℕ
sum [] = 0
sum (x ∷ xs) = x + sum xs

abbrev counter : ℕ → ℕ → Option Entry
counter n t = some (record { value = count n; ttl = some t })

module _ (R : Redis) (bucket : String) (limit window : ℕ) where
  -- How many calls are let through, when before each call so many seconds pass.
  abbrev pub accepted : List ℕ → R.State → ℕ
  accepted [] st = 0
  accepted (gap ∷ gaps) st =
      let (r, st') = check_rate_limit R bucket limit window (R.wait gap st) in
      let rest = accepted gaps st' in elim r [ ok u ↦ 1 + rest | err e ↦ rest ]

module _ (R : Redis) (laws : IsLawful R) (bucket : String) (limit window : ℕ) where
  first_call :
      (st : R.State)
      → R.entry st (rate_limit_key bucket) ≡ none
      → let (r, st') = check_rate_limit R bucket limit window st in
        (r ≡ (if ltb limit 1 then err rate_limited else ok tt))
        × (R.entry st' (rate_limit_key bucket) ≡ counter 1 window)
  unfolding check_rate_limit
  first_call st e = ground (
    arith,
    laws.entry-incr (rate_limit_key bucket) (rate_limit_key bucket) st,
    laws.entry-expire (rate_limit_key bucket) (rate_limit_key bucket) window
        (R.incr (rate_limit_key bucket) st),
    key_eq_refl (rate_limit_key bucket),
  )

  later_call :
      (st : R.State) (n t : ℕ)
      → 1 ≤ n
      → R.entry st (rate_limit_key bucket) ≡ counter n t
      → let (r, st') = check_rate_limit R bucket limit window st in
        (r ≡ (if ltb limit (n + 1) then err rate_limited else ok tt))
        × (R.entry st' (rate_limit_key bucket) ≡ counter (n + 1) t)
  unfolding check_rate_limit
  later_call st n t pos e = ground (
    arith,
    laws.entry-incr (rate_limit_key bucket) (rate_limit_key bucket) st,
    key_eq_refl (rate_limit_key bucket),
  )

  accepted_from :
      (gaps : List ℕ) (st : R.State) (n t : ℕ)
      → 1 ≤ n
      → sum gaps < t
      → R.entry st (rate_limit_key bucket) ≡ counter n t
      → accepted R bucket limit window gaps st ≡ min (length gaps) (limit - n)
  accepted_from [] st n t pos lt e = ground arith
  accepted_from (gap ∷ gaps) st n t pos lt e =
      let (r, c) =
        later_call (R.wait gap st) n (t - gap) pos
          (ground (arith, laws.entry-wait (rate_limit_key bucket) gap st)) in
      let rest =
        accepted_from gaps ((check_rate_limit R bucket limit window (R.wait gap st)).1) (n + 1)
          (t - gap) (omega arith) (omega arith) c in
      ground (arith, rest, r)

  -- While the first call's window lasts, exactly the first `limit` calls are let through, whatever
  -- the pauses between them: after a bucket that holds no counter, the number of accepted calls is
  -- the smaller of the number of calls and the limit.
  pub accepted-window :
      (gap : ℕ) (gaps : List ℕ) (st : R.State)
      → R.entry st (rate_limit_key bucket) ≡ none
      → sum gaps < window
      → accepted R bucket limit window (gap ∷ gaps) st ≡ min (length (gap ∷ gaps)) limit
  accepted-window gap gaps st e lt =
      let (r, c) =
        first_call (R.wait gap st)
          (ground (arith, laws.entry-wait (rate_limit_key bucket) gap st)) in
      let rest =
        accepted_from gaps ((check_rate_limit R bucket limit window (R.wait gap st)).1) 1 window
          (omega arith) lt c in
      ground (arith, rest, r)
