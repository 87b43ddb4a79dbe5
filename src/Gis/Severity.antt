-- ===== src/Gis/Severity.antt =====
-- `update_building_severity` of app/services/gis_service.py: the SQL that recomputes a building's
-- severity, against the loop of app/services/analyst_service.py.
use matata_backend.Common.{
  ℕ, ◌≡◌, refl, Bool, none, some, List, [], ◌∷◌, leb, if◌then◌else◌, Bool-cases, inl, inr, arith,
}
use matata_backend.Common.Sort.{insert, sort_by, filter}
use matata_backend.Common.Table.{Table, find, put}
use matata_backend.Models.{DamageSeverity, ReportDamageSeverity, Report, Database}
use matata_backend.Analyst.Severity.{
  damage_to_building_severity, counts_for, worse, worst_step, worst_from, worst,
}

-- The `CASE` of the query.
abbrev pub severity_case : ReportDamageSeverity → ℕ
severity_case ReportDamageSeverity.destroyed = 3
severity_case ReportDamageSeverity.partial = 2
severity_case ReportDamageSeverity.minimal = 1

-- `ORDER BY CASE … END DESC`
abbrev severest_first : ℕ × Report → ℕ × Report → Bool
severest_first x y = leb (severity_case y.1.damage_severity) (severity_case x.1.damage_severity)

-- `COALESCE((SELECT damage_severity … LIMIT 1), 'none')`
abbrev first_severity : List (ℕ × Report) → DamageSeverity
first_severity [] = DamageSeverity.none
first_severity (x ∷ xs) = damage_to_building_severity x.1.damage_severity

unfoldable pub queried_severity : ℕ → Table Report → DamageSeverity
queried_severity b t = first_severity (sort_by severest_first (filter (λ x. counts_for b x.1) t))

unfoldable pub update_building_severity : ℕ → ℕ → Database → Database
update_building_severity b now db = elim (find b db.buildings) [
  | none ↦ db
  | some row ↦ record db {
    buildings =
        put b
          (record row {
            current_severity = queried_severity b db.reports;
            last_report_at = some now;
          })
          db.buildings;
  }
]

worse_assoc : (a b c : DamageSeverity) → worse (worse a b) c ≡ worse a (worse b c)
worse_assoc a b c = ground arith

first-insert :
    (x : ℕ × Report) (xs : List (ℕ × Report))
    → first_severity (insert severest_first x xs)
      ≡ worse (damage_to_building_severity x.1.damage_severity) (first_severity xs)
unfolding insert
first-insert x [] = ground arith
first-insert x (y ∷ ys) = ground arith

pub queried-cons :
    (b k : ℕ) (r : Report) (t : Table Report)
    → queried_severity b ((k, r) ∷ t) ≡ (
        if counts_for b r
        then worse (damage_to_building_severity r.damage_severity) (queried_severity b t)
        else queried_severity b t)
unfolding queried_severity filter sort_by
queried-cons b k r t = elim (Bool-cases (counts_for b r)) [
  | inl e ↦ rw (e) (first-insert (k, r) (sort_by severest_first (filter (λ x. counts_for b x.1) t)))
  | inr e ↦ rw (e) refl
]

worst_from-queried :
    (b : ℕ) (acc : DamageSeverity) (t : Table Report)
    → worst_from b acc t ≡ worse acc (queried_severity b t)
unfolding worst_from worst_step queried_severity filter sort_by
worst_from-queried b acc [] = ground arith
worst_from-queried b acc ((k, r) ∷ t) = ground (
  arith,
  worst_from-queried b (worst_step b acc r) t,
  queried-cons b k r t,
  worse_assoc acc (damage_to_building_severity r.damage_severity) (queried_severity b t),
)

-- The SQL of the map worker and the loop of the analyst service compute the same severity, for every
-- building and whatever reports there are.
pub queried_severity-worst : (b : ℕ) (t : Table Report) → queried_severity b t ≡ worst b t
unfolding worst
queried_severity-worst b t = ground (arith, worst_from-queried b DamageSeverity.none t)
