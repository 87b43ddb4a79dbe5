-- ===== src/Lifecycle/Quiet.antt =====
-- Steps of the report rows that no building notices.
use matata_backend.Common.{ℕ, ◌≡◌, ◌∙◌, refl, some}
use matata_backend.Common.Table.{find, put}
use matata_backend.Models.{Report, Database}
use matata_backend.Analyst.Sync.Merges.{CountsAlike, SameWorst, worst-put_alike}
use matata_backend.Lifecycle.Step.{RowStep, Evolves, Evolves-refl, Evolves-trans, put-Evolves}

-- The rows go along their steps, and each building keeps its worst severity.
abbrev pub IsQuiet : Database → Database → Type 0
IsQuiet db db' = Evolves db.reports db'.reports × SameWorst db db'

pub IsQuiet-refl : (db : Database) → IsQuiet db db
IsQuiet-refl db = (Evolves-refl db.reports, (refl, λ b. refl))

pub IsQuiet-trans : (db db' db'' : Database) → IsQuiet db db' → IsQuiet db' db'' → IsQuiet db db''
IsQuiet-trans db db' db'' (e, (s, w)) (e', (s', w')) =
    (Evolves-trans db.reports db'.reports db''.reports e e', (s' ∙ s, λ b. w' b ∙ w b))

pub put-IsQuiet :
    (k : ℕ) (r r' : Report) (db : Database)
    → find k db.reports ≡ some r
    → RowStep r r'
    → CountsAlike r r'
    → IsQuiet db (record db { reports = put k r' db.reports })
put-IsQuiet k r r' db found x alike = (
  put-Evolves k r r' db.reports found x,
  (refl, λ b. worst-put_alike b k r r' db.reports found alike),
)

-- A call that leaves the rows, or changes one.
pub same-IsQuiet :
    (db db' : Database) → db'.reports ≡ db.reports → db'.buildings ≡ db.buildings → IsQuiet db db'
same-IsQuiet db db' er eb = (rw (er) (Evolves-refl db.reports), (eb, λ b. rw (er) refl))

pub changed-IsQuiet :
    (k : ℕ) (r r' : Report) (db db' : Database)
    → find k db.reports ≡ some r
    → RowStep r r'
    → CountsAlike r r'
    → db'.reports ≡ put k r' db.reports
    → db'.buildings ≡ db.buildings
    → IsQuiet db db'
changed-IsQuiet k r r' db db' found x alike er eb = (
  rw (er) (put-Evolves k r r' db.reports found x),
  (eb, λ b. rw (er) (worst-put_alike b k r r' db.reports found alike)),
)
