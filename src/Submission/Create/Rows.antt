-- ===== src/Submission/Create/Rows.antt =====
-- The rows that a submission writes.
use matata_backend.Common.{ℕ, ◌≡◌, refl, ◌⊎◌, inl, inr, String, false, List, [], ◌∷◌, ◌++◌, arith}
use matata_backend.Common.Table.{Table}
use matata_backend.Models.{DamageSeverity, Report, Database}
use matata_backend.Analyst.Severity.{counts_for, worst_from, worst_step, worst}
use matata_backend.Analyst.Sync.Merges.{SameWorst}
use matata_backend.FieldReporters.{FieldReporter}
use matata_backend.Lifecycle.Growth.{Grows, Grows-refl, append-Grows}
use matata_backend.Submission.Limit.{Counters}
use matata_backend.Submission.Photo.{PhotoServices}
use matata_backend.Submission.Create.{Submission, SubmissionSettings, submit_report}
use matata_backend.Submission.Create.Stored.{IsReportOf, submit_report-Outcome}

worst_from-append :
    (b k : ℕ) (r : Report) (acc : DamageSeverity) (t : Table Report)
    → counts_for b r ≡ false
    → worst_from b acc (t ++ ((k, r) ∷ [])) ≡ worst_from b acc t
unfolding worst_from worst_step
worst_from-append b k r acc [] h = ground (arith, h)
worst_from-append b k r acc ((j, s) ∷ t) h = worst_from-append b k r (worst_step b acc s) t h

worst-append :
    (b k : ℕ) (r : Report) (t : Table Report)
    → counts_for b r ≡ false
    → worst b (t ++ ((k, r) ∷ [])) ≡ worst b t
unfolding worst
worst-append b k r t h = worst_from-append b k r DamageSeverity.none t h

module _ (env : SubmissionSettings) (services : PhotoServices) (reporters : List FieldReporter)
    (k rejection_id : ℕ) (s : Submission) (token : String) (now : ℕ) (counters : Counters)
    (db : Database) where
  abbrev written : Database
  written = (submit_report env services reporters k rejection_id s token now counters db).1

  -- The reports are as they were, or one of the form is appended; and no building is touched.
  submit-cases :
      (written.buildings ≡ db.buildings)
      × ((written.reports ≡ db.reports)
          ⊎ ((r : Report) × (written.reports ≡ db.reports ++ ((k, r) ∷ []))
              × IsReportOf s (env.hash_token token) now r))
  submit-cases =
      elim (submit_report-Outcome env services reporters k rejection_id s token now counters db).1 [
        | inl (over, none', e) ↦ (rw (e) refl, inl (rw (e) refl))
        | inr (within, inl (rejected, none', e)) ↦ (rw (e) refl, inl (rw (e) refl))
        | inr (within, inr (inl (missing, none', e))) ↦ (rw (e) refl, inl (rw (e) refl))
        | inr (within, inr (inr (r, stores))) ↦ (stores.1, inr (r, stores.0, stores.3))
      ]

  pub submit-Grows :
      (New : Report → Type 0)
      → ((r : Report) → IsReportOf s (env.hash_token token) now r → New r)
      → Grows New db.reports written.reports
  submit-Grows New new = elim submit-cases.1 [
    | inl e ↦ rw (e) (Grows-refl New db.reports)
    | inr (r, e, form) ↦ rw (e) (append-Grows New k r db.reports (new r form))
  ]

  pub submit-SameWorst : SameWorst db written
  submit-SameWorst = (
    submit-cases.0,
    λ b. elim submit-cases.1 [
      | inl e ↦ rw (e) refl
      | inr (r, e, form) ↦ rw (e) (worst-append b k r db.reports (ground (arith, form.no_building)))
    ],
  )
