-- ===== src/Analyst/Monad.antt =====
-- A call of the analyst service: it reads and writes the database, and may raise. What was written
-- before a raise stays in the session until `request`, the route around the call, rolls it back.
pub mod Bind
use matata_backend.Common.{
  ℕ, String, Bool, true, false, Option, none, some, ◌∷◌, Result, ok, err, ◌same_as◌,
}
use matata_backend.Common.Table.{find, put}
use matata_backend.Models.{Report, Database, AnalystNote, JsonObject}

-- The service's `ValueError`s and `LookupError`s, and the submission service's errors, by what they
-- report.
pub data Error : Type 0 where
  invalid_target missing_reason invalid_reason : Error
  invalid_transition : Error
  report_not_found : Error
  not_pending_merge missing_possible_duplicate : Error
  empty_message already_decided : Error
  not_owner no_info_request : Error
  rate_limit_exceeded moderation_rejected upload_failed : Error

abbrev pub Action : Type 0 → Type 0
Action A = Database → Result Error A × Database

module _ {A : Type 0} where
  abbrev pub pure : A → Action A
  pure a db = (ok a, db)

  abbrev pub raise : Error → Action A
  raise e db = (err e, db)

infixl 5 ◌>>=◌ ◌>>◌
abbrev pub ◌>>=◌ : {A B : Type 0} → Action A → (A → Action B) → Action B
◌>>=◌ m f db = let (r, db') = m db in elim r [ ok a ↦ f a db' | err e ↦ raise e db' ]

abbrev pub ◌>>◌ : {A B : Type 0} → Action A → Action B → Action B
m >> k = m >>= λ _. k

-- `if not condition: raise e`
abbrev pub require : Bool → Error → Action (Unit {0})
require c e db = elim c [ true ↦ (ok tt, db) | false ↦ (err e, db) ]

abbrev pub modify : (Database → Database) → Action (Unit {0})
modify f db = (ok tt, f db)

-- `if condition: action`
abbrev pub when : Bool → Action (Unit {0}) → Action (Unit {0})
when c m db = elim c [ true ↦ m db | false ↦ (ok tt, db) ]

-- `select(Report).where(Report.id == report_id)`, with the `LookupError` if there is none.
abbrev pub find_report : ℕ → Action Report
find_report k db = elim (find k db.reports) [
  | none ↦ (err report_not_found, db)
  | some r ↦ (ok r, db)
]

-- The attributes of a loaded report are set.
abbrev pub save_report : ℕ → Report → Action (Unit {0})
save_report k r = modify λ db. record db { reports = put k r db.reports }

abbrev pub add_note : AnalystNote → Action (Unit {0})
add_note n = modify λ db. record db { notes = n ∷ db.notes }

-- `_write_audit_log`
abbrev pub write_audit_log :
    String → String → ℕ → Option JsonObject → JsonObject → Action (Unit {0})
write_audit_log operation actor k before after = modify λ db. record db {
  audit =
      record {
        operation = operation;
        actor_id_hash = actor;
        record_id = k;
        before_state = before;
        after_state = after;
      }
      ∷ db.audit;
}

-- `is_agreement` of `_log_ai_feedback`
abbrev pub agreement : Option String → Option String → Option Bool
agreement (some p) (some d) = some (p same_as d)
agreement none d = none
agreement (some p) none = none

-- `_log_ai_feedback`
abbrev pub log_ai_feedback :
    ℕ → String → Option String → Option String → Option ℕ → Action (Unit {0})
log_ai_feedback k kind prediction decision confidence = modify λ db. record db {
  feedback =
      record {
        report_id = k;
        feedback_type = kind;
        ai_prediction = prediction;
        analyst_decision = decision;
        is_agreement = agreement prediction decision;
        ai_confidence = confidence;
      }
      ∷ db.feedback;
}

-- A route: commit if the call returns, roll back if it raises.
abbrev pub request : {A : Type 0} → Action A → Database → Result Error A × Database
request m db = let (r, db') = m db in elim r [ ok a ↦ (ok a, db') | err e ↦ (err e, db) ]
