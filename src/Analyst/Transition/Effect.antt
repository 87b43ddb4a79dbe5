-- ===== src/Analyst/Transition/Effect.antt =====
-- What a status transition that goes through changes.
use matata_backend.Common.{
  if◌then◌else◌, ◌==◌, ==→eq, ==-comm, truthy, none, ℕ, Option-cases, inl, inr, String, Option,
  some, ◌≡◌, ok, arith, List, [], ◌∷◌, ◌++◌,
}
use matata_backend.Common.Table.{find-put, find, put}
use matata_backend.Models.{
  ReportStatus, DamageSeverity, Report, Building, AnalystNote, Database, AuditLog, AiFeedback, Json,
  status_value,
}
use matata_backend.Analyst.Monad.{agreement}
use matata_backend.Analyst.Transition.{
  transition_report_status, apply_transition, reason_field, notes_field, tier_after,
  predicted_severity, decided_severity,
}
use matata_backend.Analyst.Severity.{at_building, worst, recompute_building_severity}

-- The report after the transition.
abbrev pub moved : ReportStatus → Report → Report
moved s r = record r { status = s; reporter_trust_tier = tier_after s r.reporter_trust_tier }

-- The audit row of a transition.
abbrev pub entry : ℕ → ReportStatus → Option String → Option String → String → Report → AuditLog
entry k s reason notes a r = record {
  operation = "report.status_change";
  actor_id_hash = a;
  record_id = k;
  before_state = some (
      ("status", Json.text (status_value r.status))
      ∷ ("reporter_trust_tier", Json.num r.reporter_trust_tier)
      ∷ []);
  after_state =
      ("status", Json.text (status_value s))
      ∷ ("reporter_trust_tier", Json.num (moved s r).reporter_trust_tier)
      ∷ (reason_field reason ++ notes_field notes);
}

-- The feedback rows of a transition: one for a verification or a rejection.
abbrev pub decisions : ℕ → ReportStatus → Report → List AiFeedback
decisions k ReportStatus.verified r =
    record {
      report_id = k;
      feedback_type = "verify";
      ai_prediction = predicted_severity r;
      analyst_decision = some (decided_severity r);
      is_agreement = agreement (predicted_severity r) (some (decided_severity r));
      ai_confidence = r.ai_confidence;
    }
    ∷ []
decisions k ReportStatus.rejected r =
    record {
      report_id = k;
      feedback_type = "reject";
      ai_prediction = predicted_severity r;
      analyst_decision = some (decided_severity r);
      is_agreement = agreement (predicted_severity r) (some (decided_severity r));
      ai_confidence = r.ai_confidence;
    }
    ∷ []
decisions k _ r = []

-- The note of a transition, if there is a text.
abbrev pub attached : ℕ → String → Option String → List AnalystNote
attached k a none = []
attached k a (some body) =
    if truthy (some body)
    then record { report_id = k; analyst_id_hash = a; body = body } ∷ []
    else []

-- A building's row that shows a severity.
abbrev pub showing : DamageSeverity → Option Building → Option Building
showing s none = none
showing s (some row) = some (record row { current_severity = s })

module _ (k : ℕ) (s : ReportStatus) (reason notes : Option String) (a : String) (r : Report)
    (db : Database) where
  apply_result : (apply_transition k s reason notes a r db).0 ≡ ok (moved s r)
  unfolding apply_transition
  apply_result = ground arith

  pub apply_reports :
      (apply_transition k s reason notes a r db).1.reports ≡ put k (moved s r) db.reports
  unfolding apply_transition recompute_building_severity
  apply_reports = ground arith

  apply_audit :
      (apply_transition k s reason notes a r db).1.audit ≡ entry k s reason notes a r ∷ db.audit
  unfolding apply_transition recompute_building_severity
  apply_audit = ground arith

  apply_feedback :
      (apply_transition k s reason notes a r db).1.feedback ≡ decisions k s r ++ db.feedback
  unfolding apply_transition recompute_building_severity
  apply_feedback = ground arith

  apply_notes : (apply_transition k s reason notes a r db).1.notes ≡ attached k a notes ++ db.notes
  unfolding apply_transition recompute_building_severity
  apply_notes = ground arith

  apply_buildings :
      (b : ℕ)
      → let db' = (apply_transition k s reason notes a r db).1 in
        find b db'.buildings ≡ (
          if at_building b r
          then showing (worst b db'.reports) (find b db.buildings)
          else find b db.buildings)
  unfolding apply_transition recompute_building_severity
  apply_buildings b = elim (Option-cases r.building_id) [
    | inl e ↦ ground (arith, e)
    | inr (c, e) ↦ elim (Option-cases (find c db.buildings)) [
      | inl f ↦ ground (arith, e, f, ==→eq c b)
      | inr (row, f) ↦
          let row' = record row { current_severity = worst c (put k (moved s r) db.reports) } in
          ground (arith, e, f, ==→eq c b, ==-comm c b, find-put b c row' row db.buildings f)
    ]
  ]

  pub transition_applies :
      find k db.reports ≡ some r
      → (r' : Report) → (transition_report_status k s reason notes a db).0 ≡ ok r'
      → transition_report_status k s reason notes a db ≡ apply_transition k s reason notes a r db
  unfolding transition_report_status
  transition_applies found r' done = ground arith

pub transition_found :
    (k : ℕ) (s : ReportStatus) (reason notes : Option String) (a : String) (db : Database)
    (r' : Report)
    → (transition_report_status k s reason notes a db).0 ≡ ok r'
    → (r : Report) × (find k db.reports ≡ some r)
unfolding transition_report_status
transition_found k s reason notes a db r' done = elim (Option-cases (find k db.reports)) [
  | inl missing ↦ absurd (ground arith)
  | inr row ↦ row
]

-- A status transition that succeeds sets the report's status and its reporter's trust tier, and leaves
-- every other report as it was; it shows the worst severity of the reports, as they are then, at the
-- building of the report, and touches no other building; it attaches the note if there is a text,
-- appends one audit row with the states before and after, and logs the analyst's decision for a
-- verification or rejection.
pub transition_effect :
    (k : ℕ) (s : ReportStatus) (reason notes : Option String) (a : String) (db : Database)
    (r r' : Report)
    → find k db.reports ≡ some r
    → (transition_report_status k s reason notes a db).0 ≡ ok r'
    → let db' = (transition_report_status k s reason notes a db).1 in
      (r' ≡ moved s r)
      × ((j : ℕ) → find j db'.reports ≡ (if j == k then some r' else find j db.reports))
      × ((b : ℕ)
          → find b db'.buildings ≡ (
              if at_building b r
              then showing (worst b db'.reports) (find b db.buildings)
              else find b db.buildings))
      × (db'.notes ≡ attached k a notes ++ db.notes)
      × (db'.audit ≡ entry k s reason notes a r ∷ db.audit)
      × (db'.feedback ≡ decisions k s r ++ db.feedback)
transition_effect k s reason notes a db r r' found done =
    let e = transition_applies k s reason notes a r db found r' done in
    let row : r' ≡ moved s r = cc (e, apply_result k s reason notes a r db) in
    (
      row,
      λ j.
          rw (e, apply_reports k s reason notes a r db, row)
            (find-put j k (moved s r) r db.reports found),
      λ b. rw e (apply_buildings k s reason notes a r db b),
      rw e (apply_notes k s reason notes a r db),
      rw e (apply_audit k s reason notes a r db),
      rw e (apply_feedback k s reason notes a r db),
    )
