-- ===== src/Submission/Followup/Answer.antt =====
-- Requests for more information and the answers to them, one after the other.
use matata_backend.Common.{
  ℕ, String, ◌≡◌, ◌↔◌, refl, true, false, Option, none, some, Option-cases, inl, inr, ok, err,
  truthy, ==_refl, ◌same_as◌, arith,
}
use matata_backend.Common.Table.{find, find-put}
use matata_backend.Models.{Report, Database}
use matata_backend.Analyst.Monad.{no_info_request}
use matata_backend.Analyst.Review.{sanitise_text, request_more_info}
use matata_backend.Submission.Followup.{
  get_own_report, has_open_request, raised_priority, add_reporter_followup,
}

abbrev pub answered : Option String → ℕ → Report → Report
answered cleaned now r = record r {
  reporter_followup = cleaned;
  info_responded_at = some now;
  review_priority = raised_priority r.review_priority;
}

abbrev pub asked : Option String → ℕ → Report → Report
asked cleaned now r = record r {
  info_request_message = cleaned;
  info_requested_at = some now;
  reporter_followup = none;
  info_responded_at = none;
}

module _ (hash_token strip clean : String → String) where
  -- An answer is taken exactly when it comes from the report's own reporter, something is asked and not
  -- answered yet, and the answer is not empty after the sanitiser.
  pub followup_accepts :
      (k : ℕ) (token body : String) (now : ℕ) (db : Database) (r : Report)
      → find k db.reports ≡ some r
      → ((r' : Report) × ((add_reporter_followup hash_token strip clean k token body now db).0
            ≡ ok r'))
        ↔ (((r.reporter_token_hash same_as hash_token token) ≡ true)
            × (has_open_request r ≡ true)
            × (truthy (sanitise_text strip clean (some body) 2000) ≡ true))
  unfolding add_reporter_followup get_own_report
  followup_accepts k token body now db r found = (
    λ (r', e). (ground (arith, e), ground (arith, e), ground (arith, e)),
    λ (own, waits, full). (
      answered (sanitise_text strip clean (some body) 2000) now r,
      ground (arith, own, waits, full),
    ),
  )

  followup_row :
      (k : ℕ) (token body : String) (now : ℕ) (db : Database) (r r' : Report)
      → find k db.reports ≡ some r
      → (add_reporter_followup hash_token strip clean k token body now db).0 ≡ ok r'
      → find k (add_reporter_followup hash_token strip clean k token body now db).1.reports
        ≡ some (answered (sanitise_text strip clean (some body) 2000) now r)
  unfolding add_reporter_followup get_own_report
  followup_row k token body now db r r' found done =
      let row = answered (sanitise_text strip clean (some body) 2000) now r in
      ground (arith, done, find-put k k row r db.reports found, ==_refl k)

  closed_refused :
      (k : ℕ) (token body : String) (now : ℕ) (db : Database) (r : Report)
      → find k db.reports ≡ some r
      → (r.reporter_token_hash same_as hash_token token) ≡ true
      → has_open_request r ≡ false
      → add_reporter_followup hash_token strip clean k token body now db ≡ (err no_info_request, db)
  unfolding add_reporter_followup get_own_report
  closed_refused k token body now db r found own closed = ground arith

  followup_found :
      (k : ℕ) (token body : String) (now : ℕ) (db : Database) (r' : Report)
      → (add_reporter_followup hash_token strip clean k token body now db).0 ≡ ok r'
      → (r : Report) × (find k db.reports ≡ some r)
  unfolding add_reporter_followup get_own_report
  followup_found k token body now db r' done = elim (Option-cases (find k db.reports)) [
    | inl missing ↦ absurd (ground arith)
    | inr row ↦ row
  ]

  -- A question is answered once: when an answer has been taken, another one by the same reporter is
  -- refused and writes nothing.
  pub followup_once :
      (k : ℕ) (token body body' : String) (now now' : ℕ) (db : Database) (r' : Report)
      → (add_reporter_followup hash_token strip clean k token body now db).0 ≡ ok r'
      → let db' = (add_reporter_followup hash_token strip clean k token body now db).1 in
        add_reporter_followup hash_token strip clean k token body' now' db'
        ≡ (err no_info_request, db')
  followup_once k token body body' now now' db r' done =
      let (r, found) = followup_found k token body now db r' done in
      let (own, waits, full) = (followup_accepts k token body now db r found).0 (r', done) in
      closed_refused k token body' now'
        (add_reporter_followup hash_token strip clean k token body now db).1
        (answered (sanitise_text strip clean (some body) 2000) now r)
        (followup_row k token body now db r r' found done) own (ground arith)

  request_row :
      (k : ℕ) (message analyst : String) (t : ℕ) (db : Database) (r r1 : Report)
      → find k db.reports ≡ some r
      → (request_more_info strip clean k message analyst t db).0 ≡ ok r1
      → find k (request_more_info strip clean k message analyst t db).1.reports
        ≡ some (asked (sanitise_text strip clean (some message) 1000) t r)
  unfolding request_more_info
  request_row k message analyst t db r r1 found done =
      let row = asked (sanitise_text strip clean (some message) 1000) t r in
      ground (arith, done, find-put k k row r db.reports found, ==_refl k)

  -- After an analyst has asked, an answer of the report's own reporter that is not empty is taken, even
  -- if an earlier question was already answered, and the row keeps the question beside the answer.
  pub followup-request_more_info :
      (k : ℕ) (message analyst token body : String) (t now : ℕ) (db : Database) (r r1 : Report)
      → find k db.reports ≡ some r
      → (request_more_info strip clean k message analyst t db).0 ≡ ok r1
      → (r.reporter_token_hash same_as hash_token token) ≡ true
      → truthy (sanitise_text strip clean (some body) 2000) ≡ true
      → let db1 = (request_more_info strip clean k message analyst t db).1 in
        find k (add_reporter_followup hash_token strip clean k token body now db1).1.reports
        ≡ some (
            answered
              (sanitise_text strip clean (some body) 2000)
              now
              (asked (sanitise_text strip clean (some message) 1000) t r))
  followup-request_more_info k message analyst token body t now db r r1 found done own full =
      let db1 = (request_more_info strip clean k message analyst t db).1 in
      let row = request_row k message analyst t db r r1 found done in
      let r2 = asked (sanitise_text strip clean (some message) 1000) t r in
      let (r', taken) = (followup_accepts k token body now db1 r2 row).1 (own, refl, full) in
      followup_row k token body now db1 r2 r' row taken
