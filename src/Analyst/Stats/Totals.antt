-- ===== src/Analyst/Stats/Totals.antt =====
-- The public figures add up.
use matata_backend.Common.{
  ℕ, suc, ◌+◌, ◌≡◌, refl, Bool, Option, none, some, [], ◌∷◌, if◌then◌else◌, arith,
}
use matata_backend.Common.Sort.{filter}
use matata_backend.Common.Table.{Table}
use matata_backend.Models.{CrisisType, ReportDamageSeverity, Report, Database}
use matata_backend.Analyst.Listing.{Row}
use matata_backend.Analyst.Stats.{
  is_live, count_where, with_severity, with_crisis, StatsSummary, stats_of, get_stats_summary,
}

count_where-cons :
    (p : Row → Bool) (x : Row) (t : Table Report)
    → count_where p (x ∷ t) ≡ (if p x then suc (count_where p t) else count_where p t)
unfolding count_where filter
count_where-cons p x t = ground arith

by_severity :
    (t : Table Report)
    → count_where is_live t
      ≡ count_where (with_severity ReportDamageSeverity.minimal) t
        + count_where (with_severity ReportDamageSeverity.partial) t
        + count_where (with_severity ReportDamageSeverity.destroyed) t
unfolding count_where filter
by_severity [] = refl
by_severity (x ∷ t) = ground (
  arith,
  by_severity t,
  count_where-cons is_live x t,
  count_where-cons (with_severity ReportDamageSeverity.minimal) x t,
  count_where-cons (with_severity ReportDamageSeverity.partial) x t,
  count_where-cons (with_severity ReportDamageSeverity.destroyed) x t,
)

by_crisis :
    (t : Table Report)
    → count_where is_live t
      ≡ count_where (with_crisis CrisisType.flood) t
        + count_where (with_crisis CrisisType.earthquake) t
        + count_where (with_crisis CrisisType.conflict) t
        + count_where (with_crisis CrisisType.wildfire) t
        + count_where (with_crisis CrisisType.fire) t
        + count_where (with_crisis CrisisType.other) t
unfolding count_where filter
by_crisis [] = refl
by_crisis (x ∷ t) = ground (
  arith,
  by_crisis t,
  count_where-cons is_live x t,
  count_where-cons (with_crisis CrisisType.flood) x t,
  count_where-cons (with_crisis CrisisType.earthquake) x t,
  count_where-cons (with_crisis CrisisType.conflict) x t,
  count_where-cons (with_crisis CrisisType.wildfire) x t,
  count_where-cons (with_crisis CrisisType.fire) x t,
  count_where-cons (with_crisis CrisisType.other) x t,
)

-- The figures of a summary add up to its total, by severity and by crisis.
abbrev AddsUp : StatsSummary → Type 0
AddsUp s =
    (s.total ≡ s.minimal + s.partial + s.destroyed)
    × (s.total ≡ s.flood + s.earthquake + s.conflict + s.wildfire + s.fire + s.other)

abbrev CacheAddsUp : Option StatsSummary → Type 0
CacheAddsUp none = Unit
CacheAddsUp (some s) = AddsUp s

-- The public figures add up, by severity and by crisis, in the answer and in what is cached, if what
-- was cached did.
get_stats_summary-AddsUp :
    (cached : Option StatsSummary) (now : ℕ) (db : Database)
    → CacheAddsUp cached
    → AddsUp (get_stats_summary cached now db).0 × CacheAddsUp (get_stats_summary cached now db).1
unfolding get_stats_summary
get_stats_summary-AddsUp (some s) now db h = (h, h)
get_stats_summary-AddsUp none now db h =
    let sums : AddsUp (stats_of now db.reports) = (by_severity db.reports, by_crisis db.reports) in
    (sums, sums)
