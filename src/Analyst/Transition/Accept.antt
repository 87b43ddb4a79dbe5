-- ===== src/Analyst/Transition/Accept.antt =====
-- When a status transition is accepted.
use matata_backend.Common.{
  truthy, ℕ, String, true, Option, none, some, ◌≡◌, ◌↔◌, refl, ok, err, arith,
}
use matata_backend.Common.Table.{find}
use matata_backend.Models.{ReportStatus, Report, Database}
use matata_backend.Analyst.Monad.{Error}
use matata_backend.Analyst.Transition.{
  transition_report_status, apply_transition, is_reason_code, is_target, is_allowed, tier_after,
}

-- The status moves that the workflow permits.
pub data Permitted : ReportStatus → ReportStatus → Type 0 where
  verify : Permitted ReportStatus.pending ReportStatus.verified
  reject : Permitted ReportStatus.pending ReportStatus.rejected
  set_aside : Permitted ReportStatus.pending ReportStatus.duplicate
  overturn_rejection : Permitted ReportStatus.rejected ReportStatus.verified
  overturn_verification : Permitted ReportStatus.verified ReportStatus.rejected

-- A rejection names one of the known reasons.
abbrev pub ReasonGiven : ReportStatus → Option String → Type 0
ReasonGiven ReportStatus.rejected none = ⊥
ReasonGiven ReportStatus.rejected (some c) = is_reason_code c ≡ true
ReasonGiven _ reason = Unit

Permitted-is_allowed : (t s : ReportStatus) → is_allowed s t ≡ true → Permitted t s
Permitted-is_allowed ReportStatus.pending ReportStatus.verified h = verify
Permitted-is_allowed ReportStatus.pending ReportStatus.rejected h = reject
Permitted-is_allowed ReportStatus.pending ReportStatus.duplicate h = set_aside
Permitted-is_allowed ReportStatus.rejected ReportStatus.verified h = overturn_rejection
Permitted-is_allowed ReportStatus.verified ReportStatus.rejected h = overturn_verification
Permitted-is_allowed _ _ h = absurd (ground arith)

allowed_of_Permitted :
    {t s : ReportStatus} → Permitted t s → (is_target s ≡ true) × (is_allowed s t ≡ true)
allowed_of_Permitted verify = (refl, refl)
allowed_of_Permitted reject = (refl, refl)
allowed_of_Permitted set_aside = (refl, refl)
allowed_of_Permitted overturn_rejection = (refl, refl)
allowed_of_Permitted overturn_verification = (refl, refl)

truthy_of_reason : (c : String) → is_reason_code c ≡ true → truthy (some c) ≡ true
unfolding is_reason_code
truthy_of_reason String.[] h = h
truthy_of_reason (String.◌∷◌ c s) h = refl

module _ (k : ℕ) (s : ReportStatus) (reason notes : Option String) (a : String) (db : Database)
    (r : Report) (found : find k db.reports ≡ some r) where
  allowed_of :
      (r' : Report)
      → (transition_report_status k s reason notes a db).0 ≡ ok r'
      → (is_allowed s r.status ≡ true) × ReasonGiven s reason
  unfolding transition_report_status apply_transition
  allowed_of r' h = ground arith

accepted_of :
    (s : ReportStatus) (reason : Option String) (k : ℕ) (notes : Option String) (a : String)
    (db : Database) (r : Report)
    → find k db.reports ≡ some r
    → Permitted r.status s
    → ReasonGiven s reason
    → (transition_report_status k s reason notes a db).0
      ≡ ok (record r { status = s; reporter_trust_tier = tier_after s r.reporter_trust_tier })
unfolding transition_report_status apply_transition
accepted_of ReportStatus.rejected none k notes a db r found p g = absurd g
accepted_of ReportStatus.rejected (some c) k notes a db r found p g =
    ground (arith, truthy_of_reason c g, allowed_of_Permitted p)
accepted_of s reason k notes a db r found p g = ground (arith, allowed_of_Permitted p)

-- A report is moved to a status exactly when the pair of its status and the new one is permitted and
-- a rejection names one of the known reasons.
pub transition_accepts :
    (k : ℕ) (s : ReportStatus) (reason notes : Option String) (a : String) (db : Database)
    (r : Report)
    → find k db.reports ≡ some r
    → ((r' : Report) × ((transition_report_status k s reason notes a db).0 ≡ ok r'))
      ↔ (Permitted r.status s × ReasonGiven s reason)
transition_accepts k s reason notes a db r found = (
  λ (r', h). (
    Permitted-is_allowed r.status s (allowed_of k s reason notes a db r found r' h).0,
    (allowed_of k s reason notes a db r found r' h).1,
  ),
  λ (p, g). (_, accepted_of s reason k notes a db r found p g),
)

pub transition_allowed :
    (k : ℕ) (s : ReportStatus) (reason notes : Option String) (a : String) (db : Database)
    (r : Report)
    → find k db.reports ≡ some r
    → (r' : Report) → (transition_report_status k s reason notes a db).0 ≡ ok r'
    → is_allowed s r.status ≡ true
transition_allowed k s reason notes a db r found r' done =
    (allowed_of k s reason notes a db r found r' done).0

-- A refused transition writes nothing.
pub transition_refused :
    (k : ℕ) (s : ReportStatus) (reason notes : Option String) (a : String) (db : Database)
    {e : Error}
    → (transition_report_status k s reason notes a db).0 ≡ err e
    → (transition_report_status k s reason notes a db).1 ≡ db
unfolding transition_report_status apply_transition
transition_refused k s reason notes a db h = ground arith
