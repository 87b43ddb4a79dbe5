-- ===== src/Celery.antt =====
-- What the tasks of app/workers rely on in Celery: how `Task.retry` ends.
use matata_backend.Common.{ℕ, ◌≡◌, Bool, true, false, ltb}

-- What `self.retry(exc=…)` does: it schedules another attempt, or raises the exception that it was
-- given, or raises `MaxRetriesExceededError`.
pub data RetryOutcome : Type 0 where
  scheduled raises_given raises_max_retries : RetryOutcome

-- Celery's `Task.retry`, by the retries so far, the maximum, and whether an exception is given. As
-- documented: the exception that is given is what is raised when the limit is exceeded.
pub record IsCelery (retry : ℕ → ℕ → Bool → RetryOutcome) : Type 0 where
  pub below :
      (retries max_retries : ℕ) (given : Bool)
      → ltb retries max_retries ≡ true
      → retry retries max_retries given ≡ scheduled
  pub exceeded :
      (retries max_retries : ℕ)
      → ltb retries max_retries ≡ false
      → retry retries max_retries true ≡ raises_given
  pub exceeded_bare :
      (retries max_retries : ℕ)
      → ltb retries max_retries ≡ false
      → retry retries max_retries false ≡ raises_max_retries
