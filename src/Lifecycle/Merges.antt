-- ===== src/Lifecycle/Merges.antt =====
-- The merge calls of the analyst service, as steps of the report rows.
use matata_backend.Common.{
  ℕ, ◌+◌, String, ◌≡◌, refl, Option, none, some, List, [], ◌∷◌, Bool-cases, Option-cases, inl, inr,
  truthy, not, ◌&&◌, arith,
}
use matata_backend.Common.Table.{Table, find, put}
use matata_backend.Models.{ReportStatus, Report, Database, status_eq}
use matata_backend.Analyst.Monad.{find_report}
use matata_backend.Analyst.Merge.{merge_one, merge_loop, merge_reports, confirm_pending_merge}
use matata_backend.Lifecycle.Step.{
  RowStep, merge, adopt_photo, confirm, Evolves, Evolves-refl, Evolves-trans, put-Evolves,
}
use matata_backend.Lifecycle.Calls.{CallEvolves, bind-Evolves, same, changed}

-- A row is changed, and then perhaps a photo is handed to another.
handed :
    (k p : ℕ) (r r' q : Report) (photo : Option String) (t u : Table Report)
    → find k t ≡ some r
    → RowStep r r'
    → find p (put k r' t) ≡ some q
    → u ≡ put p (record q { photo_url = photo }) (put k r' t)
    → Evolves t u
handed k p r r' q photo t u found x g e =
    Evolves-trans t (put k r' t) u (put-Evolves k r r' t found x)
      (changed p q (record q { photo_url = photo }) (put k r' t) u g (adopt_photo photo refl) e)

abbrev joined : ℕ → Report → Report
joined p r = record r { status = ReportStatus.duplicate; duplicate_of_id = some p }

merge_one-Evolves : (p : ℕ) (a : String) (d : ℕ) (db : Database) → CallEvolves (merge_one p a d) db
unfolding merge_one
merge_one-Evolves p a d db = elim (Option-cases (find d db.reports)) [
  | inl e ↦ same db.reports _ (ground arith)
  | inr (r, e) ↦ elim (Option-cases (find p (put d (joined p r) db.reports))) [
    | inl g ↦ changed d r (joined p r) db.reports _ e (merge p refl) (ground arith)
    | inr (q, g) ↦ elim (Bool-cases (truthy r.photo_url && not (truthy q.photo_url))) [
      | inl h ↦
          handed d p r (joined p r) q r.photo_url db.reports _ e (merge p refl) g (ground arith)
      | inr h ↦ changed d r (joined p r) db.reports _ e (merge p refl) (ground arith)
    ]
  ]
]

abbrev confirmed : ℕ → Report → Report
confirmed p r = record r {
  status = ReportStatus.duplicate;
  duplicate_of_id = some p;
  possible_duplicate_of_id = none;
}

pub confirm-Evolves :
    (k : ℕ) (a : String) (db : Database) → CallEvolves (confirm_pending_merge k a) db
unfolding confirm_pending_merge
confirm-Evolves k a db = elim (Option-cases (find k db.reports)) [
  | inl e ↦ same db.reports _ (ground arith)
  | inr (r, e) ↦ elim (Bool-cases (status_eq r.status ReportStatus.pending_merge_review)) [
    | inr s ↦ same db.reports _ (ground arith)
    | inl s ↦ elim (Option-cases r.possible_duplicate_of_id) [
      | inl f ↦ same db.reports _ (ground arith)
      | inr (p, f) ↦
          let x : RowStep r (confirmed p r) = confirm p (ground arith) f refl in
          elim (Option-cases (find p (put k (confirmed p r) db.reports))) [
            | inl g ↦ changed k r (confirmed p r) db.reports _ e x (ground arith)
            | inr (q, g) ↦ elim (Bool-cases (truthy r.photo_url && not (truthy q.photo_url))) [
              | inl h ↦ handed k p r (confirmed p r) q r.photo_url db.reports _ e x g (ground arith)
              | inr h ↦ changed k r (confirmed p r) db.reports _ e x (ground arith)
            ]
          ]
    ]
  ]
]

merge_loop-Evolves :
    (p : ℕ) (a : String) (n : ℕ) (ids : List ℕ) (db : Database)
    → CallEvolves (merge_loop p a n ids) db
unfolding merge_loop
merge_loop-Evolves p a n [] db = Evolves-refl db.reports
merge_loop-Evolves p a n (d ∷ ids) db =
    bind-Evolves (merge_one p a d) (λ _. merge_loop p a (n + 1) ids) db (merge_one-Evolves p a d db)
      (λ _. merge_loop-Evolves p a (n + 1) ids (merge_one p a d db).1)

find_report-Evolves : (p : ℕ) (db : Database) → CallEvolves (find_report p) db
find_report-Evolves p db = same db.reports _ (ground arith)

pub merge_reports-Evolves :
    (p : ℕ) (ids : List ℕ) (a : String) (db : Database) → CallEvolves (merge_reports p ids a) db
unfolding merge_reports
merge_reports-Evolves p ids a db =
    bind-Evolves (find_report p) (λ _. merge_loop p a 0 ids) db (find_report-Evolves p db)
      (λ _. merge_loop-Evolves p a 0 ids (find_report p db).1)
