-- ===== src/Lifecycle/Calls.antt =====
-- The calls of the analyst service, as steps of the report rows.
use matata_backend.Common.{
  ◌same_as◌, ℕ, String, ◌≡◌, refl, Option, none, some, Bool-cases, Option-cases, Result-cases, inl,
  inr, truthy, ◌&&◌, arith,
}
use matata_backend.Common.Table.{Table, find, put}
use matata_backend.Models.{ReportStatus, ReportDamageSeverity, Report, Database, status_eq}
use matata_backend.Analyst.Monad.{Action, ◌>>=◌}
use matata_backend.Analyst.Monad.Bind.{>>=-ok, >>=-err}
use matata_backend.Analyst.Transition.{transition_report_status}
use matata_backend.Analyst.Transition.Accept.{transition_refused, transition_allowed}
use matata_backend.Analyst.Transition.Effect.{
  moved, apply_reports, transition_found, transition_applies,
}
use matata_backend.Analyst.Merge.{reject_pending_merge}
use matata_backend.Analyst.Review.{
  create_analyst_note, request_more_info, set_severity_override, sanitise_text, awaits_review,
}
use matata_backend.Submission.Followup.{
  get_own_report, has_open_request, raised_priority, add_reporter_followup,
}
use matata_backend.Lifecycle.Step.{
  RowStep, decide, refuse, ask, answer, override, Evolves, Evolves-refl, Evolves-trans, put-Evolves,
}

-- The rows of the database after a call, against those before it.
abbrev pub CallEvolves : {A : Type 0} → Action A → Database → Type 0
CallEvolves m db = Evolves db.reports (m db).1.reports

abbrev pub same : (t u : Table Report) → u ≡ t → Evolves t u
same t u e = rw e (Evolves-refl t)

abbrev pub changed :
    (k : ℕ) (r r' : Report) (t u : Table Report)
    → find k t ≡ some r
    → RowStep r r'
    → u ≡ put k r' t
    → Evolves t u
changed k r r' t u found x e = rw e (put-Evolves k r r' t found x)

pub bind-Evolves :
    {A B : Type 0} (m : Action A) (f : A → Action B) (db : Database)
    → CallEvolves m db
    → ((x : A) → CallEvolves (f x) (m db).1)
    → CallEvolves (m >>= f) db
bind-Evolves m f db h g = elim (Result-cases (m db).0) [
  | inl (x, e) ↦
      rw (>>=-ok m f db x e)
        (Evolves-trans db.reports (m db).1.reports (f x (m db).1).1.reports h (g x))
  | inr (x, e) ↦ rw (>>=-err m f db x e) h
]

pub transition-Evolves :
    (k : ℕ) (s : ReportStatus) (reason notes : Option String) (a : String) (db : Database)
    → CallEvolves (transition_report_status k s reason notes a) db
transition-Evolves k s reason notes a db =
    elim (Result-cases (transition_report_status k s reason notes a db).0) [
      | inl (r', done) ↦
          let (r, found) = transition_found k s reason notes a db r' done in
          rw (transition_applies k s reason notes a r db found r' done) (
            changed k r (moved s r) db.reports _ found
              (decide s (transition_allowed k s reason notes a db r found r' done) refl)
              (apply_reports k s reason notes a r db))
      | inr (e, refused) ↦
          rw (transition_refused k s reason notes a db refused) (Evolves-refl db.reports)
    ]

pub reject-Evolves :
    (k : ℕ) (a : String) (db : Database) → CallEvolves (reject_pending_merge k a) db
unfolding reject_pending_merge
reject-Evolves k a db = elim (Option-cases (find k db.reports)) [
  | inl e ↦ same db.reports _ (ground arith)
  | inr (r, e) ↦ elim (Bool-cases (status_eq r.status ReportStatus.pending_merge_review)) [
    | inl s ↦
        changed k r
          (record r {
            status = ReportStatus.pending;
            possible_duplicate_of_id = none;
            duplicate_score = none;
          })
          db.reports _ e (refuse (ground arith) refl) (ground arith)
    | inr s ↦ same db.reports _ (ground arith)
  ]
]

pub override-Evolves :
    (k : ℕ) (s : ReportDamageSeverity) (a : String) (db : Database)
    → CallEvolves (set_severity_override k s a) db
unfolding set_severity_override
override-Evolves k s a db = elim (Option-cases (find k db.reports)) [
  | inl e ↦ same db.reports _ (ground arith)
  | inr (r, e) ↦
      changed k r (record r { analyst_severity_override = some s }) db.reports _ e (override s refl)
        (ground arith)
]

pub note-Evolves :
    (k : ℕ) (body a : String) (db : Database) → CallEvolves (create_analyst_note k body a) db
unfolding create_analyst_note
note-Evolves k body a db = same db.reports _ (ground arith)

pub ask-Evolves :
    (strip clean : String → String) (k : ℕ) (message a : String) (now : ℕ) (db : Database)
    → CallEvolves (request_more_info strip clean k message a now) db
unfolding request_more_info
ask-Evolves strip clean k message a now db =
    let cleaned : Option String = sanitise_text strip clean (some message) 1000 in
    elim (Option-cases (find k db.reports)) [
      | inl e ↦ same db.reports _ (ground arith)
      | inr (r, e) ↦ elim (Bool-cases (truthy cleaned && awaits_review r.status)) [
        | inl s ↦
            changed k r
              (record r {
                info_request_message = cleaned;
                info_requested_at = some now;
                reporter_followup = none;
                info_responded_at = none;
              })
              db.reports _ e (ask cleaned now refl) (ground arith)
        | inr s ↦ same db.reports _ (ground arith)
      ]
    ]

pub followup-Evolves :
    (hash_token strip clean : String → String) (k : ℕ) (token body : String) (now : ℕ)
    (db : Database)
    → CallEvolves (add_reporter_followup hash_token strip clean k token body now) db
unfolding add_reporter_followup get_own_report
followup-Evolves hash_token strip clean k token body now db =
    let cleaned : Option String = sanitise_text strip clean (some body) 2000 in
    elim (Option-cases (find k db.reports)) [
      | inl e ↦ same db.reports _ (ground arith)
      | inr (r, e) ↦
          elim (Bool-cases (
            (r.reporter_token_hash same_as hash_token token)
            && (has_open_request r && truthy cleaned))) [
              | inl s ↦
                  changed k r
                    (record r {
                      reporter_followup = cleaned;
                      info_responded_at = some now;
                      review_priority = raised_priority r.review_priority;
                    })
                    db.reports _ e (answer cleaned now refl) (ground arith)
              | inr s ↦ same db.reports _ (ground arith)
            ]
    ]
