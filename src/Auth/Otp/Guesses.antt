-- ===== src/Auth/Otp/Guesses.antt =====
-- Sequences of codes that are sent to a number and tried for it.
use matata_backend.Common.{
  ℕ, ◌+◌, ◌-◌, ◌≤◌, ◌<◌, String, ◌≡◌, ◌≢◌, ◌⊎◌, inl, inr, ◌==◌, ap, ◌∙◌, refl, Bool, true, false,
  Bool-cases, Option-cases, Option, none, some, List, [], ◌∷◌, Result, ok, err, leb, arith,
  ◌same_as◌, if◌then◌else◌,
}
use matata_backend.Auth.Redis.{
  Redis, IsLawful, Entry, Value, Role, count, otp_key, otp_attempts_key, key_eq_refl, aged,
}
use matata_backend.Auth.RateLimit.{
  AuthError, invalid_otp, sms_delivery, otp_locked_out, otp_not_found, count_of,
}
use matata_backend.Auth.Tokens.{Jwt, Settings}
use matata_backend.Auth.Accounts.{AnalystAccount}
use matata_backend.Auth.Otp.{
  otp_ttl_seconds, otp_max_attempts, otp_lockout_seconds, text_of, test_phone_otp, send_otp,
  mismatch, sign_in, verify_otp,
}

-- What happens to a number: after a pause, another code is sent, or a code is tried.
pub data OtpEvent : Type 0 where
  resend : ℕ → String → OtpEvent
  guess : ℕ → String → OtpEvent

abbrev pause_of : OtpEvent → ℕ
pause_of (resend d s) = d
pause_of (guess d s) = d

abbrev pauses : List OtpEvent → ℕ
pauses [] = 0
pauses (x ∷ xs) = pause_of x + pauses xs

-- An entry with so many attempts that lives so many seconds; none is stored for no attempts.
abbrev attempts : ℕ → ℕ → Option Entry
attempts n t = if n == 0 then none else some (record { value = count n; ttl = some t })

aged-attempts : (n t d : ℕ) → d < t → aged d (attempts n t) ≡ attempts n (t - d)
aged-attempts n t d lt = ground arith

-- The answers of a try and of those after it: a sign-in ends the count.
abbrev counted {ℓ} : {A : Type ℓ} → Result AuthError A → ℕ → ℕ
counted (ok got) rest = 0
counted (err e) rest = elim e [ AuthError.invalid_otp ↦ 1 + rest | _ ↦ rest ]

counted_other {ℓ} :
    (A : Type ℓ) (e : AuthError) (rest : ℕ) → e ≢ invalid_otp → counted {A = A} (err e) rest ≡ rest
counted_other e rest ne = ground (arith, ne)

module _ (R : Redis) (J : Jwt) (settings : Settings) (hash : String → String)
    (gateway : String → String → Bool) (production : Bool) (phone : String)
    (db : Option (List AnalystAccount)) (tier : ℕ) (jti token_id : String) (now : ℕ) where
  -- The wrong codes that are compared, until one signs in.
  abbrev pub wrong_guesses : List OtpEvent → R.State → ℕ
  wrong_guesses [] st = 0
  wrong_guesses (resend d code ∷ xs) st =
      wrong_guesses xs (send_otp R hash gateway production phone code (R.wait d st)).1
  wrong_guesses (guess d code ∷ xs) st =
      let (r, st') =
        verify_otp R J settings hash phone code db tier jti token_id now (R.wait d st) in
      let rest = wrong_guesses xs st' in counted r rest

module _ (R : Redis) (laws : IsLawful R) (J : Jwt) (settings : Settings) (hash : String → String)
    (gateway : String → String → Bool) (production : Bool) (phone : String)
    (db : Option (List AnalystAccount)) (tier : ℕ) (jti token_id : String) (now : ℕ) where
  set_otp :
      (code : String) (st : R.State)
      → R.entry
          (R.set (otp_key (hash phone)) (Value.text code) otp_ttl_seconds st)
          (otp_attempts_key (hash phone))
        ≡ R.entry st (otp_attempts_key (hash phone))
  set_otp code st =
      laws.entry-set (otp_attempts_key (hash phone)) (otp_key (hash phone)) (Value.text code)
        otp_ttl_seconds st

  dispatched :
      (code : String) (st : R.State) (delivered : Bool)
      → let sent = R.set (otp_key (hash phone)) (Value.text code) otp_ttl_seconds st in
        let result : Result AuthError (Unit {0}) × R.State =
          if delivered
          then (ok tt, sent)
          else (err sms_delivery, R.delete (otp_key (hash phone)) sent) in
        R.entry result.1 (otp_attempts_key (hash phone))
        ≡ R.entry st (otp_attempts_key (hash phone))
  dispatched code st true = set_otp code st
  dispatched code st false =
      laws.entry-delete (otp_attempts_key (hash phone)) (otp_key (hash phone))
        (R.set (otp_key (hash phone)) (Value.text code) otp_ttl_seconds st)
      ∙ set_otp code st

  sent_attempts :
      (code : String) (st : R.State)
      → R.entry (send_otp R hash gateway production phone code st).1 (otp_attempts_key (hash phone))
        ≡ R.entry st (otp_attempts_key (hash phone))
  unfolding send_otp
  sent_attempts code st = elim (Bool-cases production) [
    | inl p ↦ rw p (dispatched code st (gateway phone code))
    | inr q ↦ rw q (elim (Option-cases (test_phone_otp phone)) [
      | inl n ↦ rw n (dispatched code st (gateway phone code))
      | inr (fixed, f) ↦ rw f (set_otp fixed st)
    ])
  ]

  mismatch-attempts :
      (n t : ℕ) (st : R.State)
      → R.entry st (otp_attempts_key (hash phone)) ≡ attempts n t
      → R.entry (mismatch R J settings hash (hash phone) st) (otp_attempts_key (hash phone))
        ≡ attempts (n + 1) (if n == 0 then otp_lockout_seconds else t)
  unfolding mismatch
  mismatch-attempts n t st e =
      let key = otp_attempts_key (hash phone) in
      ground (
        arith,
        e,
        laws.entry-incr key key st,
        laws.entry-expire key key otp_lockout_seconds (R.incr key st),
        key_eq_refl key,
      )

  -- A try: it signs in, or it adds an attempt that was still free, or it changes nothing.
  tried :
      (code : String) (n t : ℕ) (st : R.State)
      → R.entry st (otp_attempts_key (hash phone)) ≡ attempts n t
      → let (r, st') = verify_otp R J settings hash phone code db tier jti token_id now st in
        ((got : J.Token × String × Role) × (r ≡ ok got))
        ⊎ ((e : AuthError) × (r ≡ err e) × (e ≢ invalid_otp) × (st' ≡ st))
        ⊎ (r ≡ err invalid_otp)
          × (n < otp_max_attempts)
          × (st' ≡ mismatch R J settings hash (hash phone) st)
  unfolding verify_otp sign_in
  tried code n t st e =
      elim (Bool-cases
        (leb otp_max_attempts (count_of (R.entry st (otp_attempts_key (hash phone)))))) [
          | inl full ↦
              rw full (inr (inl (otp_locked_out, refl, (λ q. absurd (ground (arith, q))), refl)))
          | inr free ↦ rw free (elim (Option-cases (text_of (R.entry st (otp_key (hash phone))))) [
            | inl missing ↦
                rw missing
                  (inr (inl (otp_not_found, refl, (λ q. absurd (ground (arith, q))), refl)))
            | inr (stored, there) ↦ rw there (elim (Bool-cases (stored same_as code)) [
              | inl same ↦ rw same (inl (_, refl))
              | inr wrong ↦ rw wrong (inr (inr (refl, ground (arith, free, e), refl)))
            ])
          ])
        ]

  wrong_guesses_from :
      (events : List OtpEvent) (n t : ℕ) (st : R.State)
      → n ≤ otp_max_attempts
      → t ≤ otp_lockout_seconds
      → R.entry st (otp_attempts_key (hash phone)) ≡ attempts n t
      → pauses events < t
      → wrong_guesses R J settings hash gateway production phone db tier jti token_id now events st
          + n
        ≤ otp_max_attempts
  wrong_guesses_from [] n t st le lt e soon = omega arith
  wrong_guesses_from (resend d code ∷ xs) n t st le lt e soon =
      let st1 = R.wait d st in
      wrong_guesses_from xs n (t - d) ((send_otp R hash gateway production phone code st1).1) le
        (omega arith)
        (sent_attempts code st1
          ∙ laws.entry-wait (otp_attempts_key (hash phone)) d st
          ∙ ap (aged d) e
          ∙ aged-attempts n t d (omega arith))
        (omega arith)
  wrong_guesses_from (guess d code ∷ xs) n t st le lt e soon =
      let st1 = R.wait d st in
      let e1 =
        laws.entry-wait (otp_attempts_key (hash phone)) d st
        ∙ ap (aged d) e
        ∙ aged-attempts n t d (omega arith) in
      elim (tried code n (t - d) st1 e1) [
        | inl (got, g) ↦ rw g (omega arith)
        | inr (inl (x, g, ne, same)) ↦
            let rest = wrong_guesses_from xs n (t - d) st1 le (omega arith) e1 (omega arith) in
            rw g (
              rw
                (counted_other (J.Token × String × Role) x
                  (wrong_guesses R J settings hash gateway production phone db tier jti token_id now
                    xs (verify_otp R J settings hash phone code db tier jti token_id now st1).1)
                  ne)
                (rw same rest))
        | inr (inr (g, few, same)) ↦
            let life = if n == 0 then otp_lockout_seconds else t - d in
            let rest =
              wrong_guesses_from xs (n + 1) life (mismatch R J settings hash (hash phone) st1)
                (omega arith) (ground (arith, lt)) (mismatch-attempts n (t - d) st1 e1)
                (ground (arith, soon, lt)) in
            rw g (rw same (omega arith))
      ]

  -- From a number without attempts, and while less than the fifteen minutes pass, at most five wrong
  -- codes are compared with the right one until a code signs in, however often and whenever codes are
  -- sent again.
  pub wrong_guesses-bound :
      (events : List OtpEvent) (st : R.State)
      → R.entry st (otp_attempts_key (hash phone)) ≡ none
      → pauses events < otp_lockout_seconds
      → wrong_guesses R J settings hash gateway production phone db tier jti token_id now events st
        ≤ otp_max_attempts
  wrong_guesses-bound events st e lt =
      let bound =
        wrong_guesses_from events 0 otp_lockout_seconds st (omega arith) (omega arith) e lt in
      omega arith
