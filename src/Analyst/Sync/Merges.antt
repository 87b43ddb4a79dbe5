-- ===== src/Analyst/Sync/Merges.antt =====
-- The merge calls and the severities of the buildings.
use matata_backend.Common.{
  ℕ, ◌+◌, ◌≡◌, refl, ◌∙◌, String, Option, none, some, false, arith, inl, inr, Option-cases,
  Result-cases, List, [], ◌∷◌,
}
use matata_backend.Common.Table.{Table, find, put, find-put}
use matata_backend.Models.{ReportStatus, Report, Database, status_eq}
use matata_backend.Analyst.Monad.{find_report}
use matata_backend.Analyst.Monad.Bind.{>>=-ok, >>=-err}
use matata_backend.Analyst.Severity.{worst}
use matata_backend.Analyst.Severity.Worst.{worst-put}
use matata_backend.Analyst.Merge.{
  merge_one, merge_loop, merge_reports, confirm_pending_merge, reject_pending_merge,
}

-- The new row counts for the same building, with the same severity, exactly if the old one did.
abbrev pub CountsAlike : Report → Report → Type 0
CountsAlike r r' =
    (r'.building_id ≡ r.building_id)
    × (r'.damage_severity ≡ r.damage_severity)
    × (status_eq r'.status ReportStatus.rejected ≡ status_eq r.status ReportStatus.rejected)

pub worst-put_alike :
    (b k : ℕ) (r r' : Report) (t : Table Report)
    → find k t ≡ some r
    → CountsAlike r r'
    → worst b (put k r' t) ≡ worst b t
worst-put_alike b k r r' t found (eb, es, er) = worst-put b k r r' t found (rw (eb, er) refl) es

-- What a call leaves for the buildings: they are untouched, and so is each one's worst severity.
abbrev pub SameWorst : Database → Database → Type 0
SameWorst db db' =
    (db'.buildings ≡ db.buildings) × ((b : ℕ) → worst b db'.reports ≡ worst b db.reports)

pub reject-SameWorst :
    (k : ℕ) (a : String) (db : Database) → SameWorst db (reject_pending_merge k a db).1
unfolding reject_pending_merge
reject-SameWorst k a db = elim (Option-cases (find k db.reports)) [
  | inl e ↦ (ground arith, λ b. ground arith)
  | inr (r, e) ↦ (
    ground arith,
    λ b. ground (
      arith,
      worst-put_alike b k r
          (record r {
            status = ReportStatus.pending;
            possible_duplicate_of_id = none;
            duplicate_score = none;
          })
          db.reports e,
    ),
  )
]

-- Setting a photo changes no count.
photo_worst :
    (b k : ℕ) (r : Report) (photo : Option String) (t : Table Report)
    → find k t ≡ some r
    → worst b (put k (record r { photo_url = photo }) t) ≡ worst b t
photo_worst b k r photo t found =
    worst-put_alike b k r (record r { photo_url = photo }) t found (refl, refl, refl)

pub confirm-SameWorst :
    (k : ℕ) (a : String) (db : Database) → SameWorst db (confirm_pending_merge k a db).1
unfolding confirm_pending_merge
confirm-SameWorst k a db = elim (Option-cases (find k db.reports)) [
  | inl e ↦ (ground arith, λ b. ground arith)
  | inr (r, e) ↦ elim (Option-cases r.possible_duplicate_of_id) [
    | inl f ↦ (ground arith, λ b. ground arith)
    | inr (p, f) ↦
        let r' : Report = record r {
          status = ReportStatus.duplicate;
          duplicate_of_id = some p;
          possible_duplicate_of_id = none;
        } in
        elim (Option-cases (find p (put k r' db.reports))) [
          | inl g ↦ (ground arith, λ b. ground (arith, worst-put_alike b k r r' db.reports e))
          | inr (q, g) ↦ (
            ground arith,
            λ b. ground (
              arith,
              worst-put_alike b k r r' db.reports e,
              photo_worst b p q r.photo_url (put k r' db.reports) g,
            ),
          )
        ]
  ]
]

abbrev merged : ℕ → Report → Report
merged primary_id r = record r {
  status = ReportStatus.duplicate;
  duplicate_of_id = some primary_id;
}

merge_one-SameWorst :
    (p : ℕ) (a : String) (d : ℕ) (db : Database)
    → ((r : Report) → find d db.reports ≡ some r → status_eq r.status ReportStatus.rejected ≡ false)
    → SameWorst db (merge_one p a d db).1
unfolding merge_one
merge_one-SameWorst p a d db live = elim (Option-cases (find d db.reports)) [
  | inl e ↦ (ground arith, λ b. ground arith)
  | inr (r, e) ↦ elim (Option-cases (find p (put d (merged p r) db.reports))) [
    | inl g ↦
        (ground arith, λ b. ground (arith, live r, worst-put_alike b d r (merged p r) db.reports e))
    | inr (q, g) ↦ (
      ground arith,
      λ b. ground (
        arith,
        live r,
        worst-put_alike b d r (merged p r) db.reports e,
        photo_worst b p q r.photo_url (put d (merged p r) db.reports) g,
      ),
    )
  ]
]

-- None of the listed reports is rejected.
abbrev pub NoneRejected : List ℕ → Database → Type 0
NoneRejected [] db = Unit
NoneRejected (d ∷ ids) db =
    ((r : Report) → find d db.reports ≡ some r → status_eq r.status ReportStatus.rejected ≡ false)
    × NoneRejected ids db

-- A merge makes no report rejected.
merge_one-rejected :
    (p : ℕ) (a : String) (d j : ℕ) (db : Database) (s : Report)
    → ((r : Report) → find j db.reports ≡ some r → status_eq r.status ReportStatus.rejected ≡ false)
    → find j (merge_one p a d db).1.reports ≡ some s
    → status_eq s.status ReportStatus.rejected ≡ false
unfolding merge_one
merge_one-rejected p a d j db s live found = elim (Option-cases (find d db.reports)) [
  | inl e ↦ ground (arith, live s)
  | inr (r, e) ↦ elim (Option-cases (find p (put d (merged p r) db.reports))) [
    | inl g ↦ ground (arith, live s, find-put j d (merged p r) r db.reports e)
    | inr (q, g) ↦ ground (
      arith,
      live s,
      live q,
      find-put j d (merged p r) r db.reports e,
      find-put p d (merged p r) r db.reports e,
      find-put j p (record q { photo_url = r.photo_url }) q (put d (merged p r) db.reports) g,
    )
  ]
]

NoneRejected-merge_one :
    (p : ℕ) (a : String) (d : ℕ) (ids : List ℕ) (db : Database)
    → NoneRejected ids db
    → NoneRejected ids (merge_one p a d db).1
NoneRejected-merge_one p a d [] db h = tt
NoneRejected-merge_one p a d (j ∷ ids) db h =
    (λ s found. merge_one-rejected p a d j db s h.0 found, NoneRejected-merge_one p a d ids db h.1)

SameWorst-trans : (x y z : Database) → SameWorst x y → SameWorst y z → SameWorst x z
SameWorst-trans x y z f g = (g.0 ∙ f.0, λ b. g.1 b ∙ f.1 b)

merge_loop-SameWorst :
    (p : ℕ) (a : String) (n : ℕ) (ids : List ℕ) (db : Database)
    → NoneRejected ids db
    → SameWorst db (merge_loop p a n ids db).1
unfolding merge_loop
merge_loop-SameWorst p a n [] db h = (refl, λ b. refl)
merge_loop-SameWorst p a n (d ∷ ids) db h =
    let one : SameWorst db (merge_one p a d db).1 = merge_one-SameWorst p a d db h.0 in
    elim (Result-cases (merge_one p a d db).0) [
      | inl (u, e) ↦ rw (>>=-ok (merge_one p a d) (λ _. merge_loop p a (n + 1) ids) db u e) (
          SameWorst-trans db (merge_one p a d db).1
            (merge_loop p a (n + 1) ids (merge_one p a d db).1).1 one
            (merge_loop-SameWorst p a (n + 1) ids (merge_one p a d db).1
              (NoneRejected-merge_one p a d ids db h.1)))
      | inr (x, e) ↦ rw (>>=-err (merge_one p a d) (λ _. merge_loop p a (n + 1) ids) db x e) one
    ]

pub merge_reports-SameWorst :
    (p : ℕ) (ids : List ℕ) (a : String) (db : Database)
    → NoneRejected ids db
    → SameWorst db (merge_reports p ids a db).1
unfolding merge_reports
merge_reports-SameWorst p ids a db h = elim (Option-cases (find p db.reports)) [
  | inl e ↦ (ground arith, λ b. ground arith)
  | inr (r, e) ↦
      rw (>>=-ok (find_report p) (λ _. merge_loop p a 0 ids) db r (ground arith))
        (rw (e, find_report) (merge_loop-SameWorst p a 0 ids db h))
]
