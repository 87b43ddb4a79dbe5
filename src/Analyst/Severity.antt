-- ===== src/Analyst/Severity.antt =====
-- `_recompute_building_severity` of app/services/analyst_service.py.
pub mod Worst
use matata_backend.Common.{ℕ, Bool, false, ◌&&◌, not, none, some, [], ◌∷◌, leb, ◌==◌, if◌then◌else◌}
use matata_backend.Common.Table.{Table, find, put}
use matata_backend.Models.{
  DamageSeverity, ReportDamageSeverity, ReportStatus, Report, Database, status_eq,
}

-- `_SEVERITY_ORDER`
abbrev pub severity_order : DamageSeverity → ℕ
severity_order DamageSeverity.none = 0
severity_order DamageSeverity.minimal = 1
severity_order DamageSeverity.partial = 2
severity_order DamageSeverity.destroyed = 3

-- `_DAMAGE_TO_BUILDING_SEVERITY`
abbrev pub damage_to_building_severity : ReportDamageSeverity → DamageSeverity
damage_to_building_severity ReportDamageSeverity.minimal = DamageSeverity.minimal
damage_to_building_severity ReportDamageSeverity.partial = DamageSeverity.partial
damage_to_building_severity ReportDamageSeverity.destroyed = DamageSeverity.destroyed

-- The report is of the building, as `Report.building_id == building_id` tests.
abbrev pub at_building : ℕ → Report → Bool
at_building b r = elim r.building_id [ none ↦ false | some c ↦ c == b ]

-- The `WHERE` of the query: of the building and not rejected. `damage_severity` is never null.
abbrev pub counts_for : ℕ → Report → Bool
counts_for b r = at_building b r && not (status_eq r.status ReportStatus.rejected)

-- The later of two severities wins only if it is strictly worse, as in Python's `max`.
abbrev pub worse : DamageSeverity → DamageSeverity → DamageSeverity
worse a b = if leb (severity_order b) (severity_order a) then a else b

-- The running maximum after one row.
unfoldable pub worst_step : ℕ → DamageSeverity → Report → DamageSeverity
worst_step b acc r =
    if counts_for b r then worse acc (damage_to_building_severity r.damage_severity) else acc

-- `max(…, key=_SEVERITY_ORDER.get, default="none")` over the query's rows, from the running maximum.
unfoldable pub worst_from : ℕ → DamageSeverity → Table Report → DamageSeverity
worst_from b acc [] = acc
worst_from b acc ((k, r) ∷ t) = worst_from b (worst_step b acc r) t

unfoldable pub worst : ℕ → Table Report → DamageSeverity
worst b t = worst_from b DamageSeverity.none t

unfoldable pub recompute_building_severity : ℕ → Database → Database
recompute_building_severity b db = elim (find b db.buildings) [
  | none ↦ db
  | some row ↦ record db {
    buildings = put b (record row { current_severity = worst b db.reports }) db.buildings;
  }
]
