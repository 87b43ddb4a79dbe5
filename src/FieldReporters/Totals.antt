-- ===== src/FieldReporters/Totals.antt =====
-- No report is paid twice, or forgotten, by the summary.

use matata_backend.Common.{
  ℕ, suc, ◌+◌, ◌≡◌, ◌∙◌, refl, String, Bool, true, Option, List, [], ◌∷◌, is_some, ◌&&◌, ◌same_as◌,
  same_as_refl, Bool-cases, Option-cases, inl, inr, arith,
}
use matata_backend.Common.Lists.{length, All, All-weaken}
use matata_backend.Common.Sort.{insert, sort_by, filter, sort_by-All}
use matata_backend.Common.Table.{Table}
use matata_backend.Models.{ReportStatus, Report}
use matata_backend.FieldReporters.{
  FieldReporter, FieldReporterSummaryRow, Group, count_report, in_period, groups, add_group,
  add_groups, has_row, registered_rows, payment_summary,
}

-- The four outcomes of a row add up to its total.
abbrev pub RowAddsUp : FieldReporterSummaryRow → Type 0
RowAddsUp r = r.total ≡ r.verified + r.pending + r.rejected + r.duplicate

add_group-AddsUp :
    (g : Group) (rows : List FieldReporterSummaryRow)
    → All RowAddsUp rows
    → All RowAddsUp (add_group g rows)
unfolding add_group
add_group-AddsUp g [] h = (ground arith, tt)
add_group-AddsUp g (r ∷ rs) h = elim (Bool-cases (r.code same_as g.code)) [
  | inl e ↦ rw (add_group, e) (ground (arith, h.0), h.1)
  | inr e ↦ rw (add_group, e) (h.0, add_group-AddsUp g rs h.1)
]

add_groups-AddsUp :
    (gs : List Group) (rows : List FieldReporterSummaryRow)
    → All RowAddsUp rows
    → All RowAddsUp (add_groups gs rows)
unfolding add_groups
add_groups-AddsUp [] rows h = h
add_groups-AddsUp (g ∷ gs) rows h =
    add_groups-AddsUp gs (add_group g rows) (add_group-AddsUp g rows h)

-- The totals of the rows, together.
unfoldable pub paid_total : List FieldReporterSummaryRow → ℕ
paid_total [] = 0
paid_total (r ∷ rs) = r.total + paid_total rs

unfoldable pub group_total : List Group → ℕ
group_total [] = 0
group_total (g ∷ gs) = g.count + group_total gs

add_group-total :
    (g : Group) (rows : List FieldReporterSummaryRow)
    → paid_total (add_group g rows) ≡ g.count + paid_total rows
unfolding add_group paid_total
add_group-total g [] = ground arith
add_group-total g (r ∷ rs) = ground (arith, add_group-total g rs)

add_groups-total :
    (gs : List Group) (rows : List FieldReporterSummaryRow)
    → paid_total (add_groups gs rows) ≡ group_total gs + paid_total rows
unfolding add_groups group_total
add_groups-total [] rows = omega arith
add_groups-total (g ∷ gs) rows =
    ground (arith, add_groups-total gs (add_group g rows), add_group-total g rows)

count_report-total :
    (code : String) (status : ReportStatus) (gs : List Group)
    → group_total (count_report code status gs) ≡ suc (group_total gs)
unfolding count_report group_total
count_report-total code status [] = refl
count_report-total code status (g ∷ gs) = ground (arith, count_report-total code status gs)

-- A report of the period with a code.
abbrev pub is_coded : Option ℕ → Option ℕ → ℕ × Report → Bool
is_coded date_from date_to x = in_period date_from date_to x.1 && is_some x.1.field_reporter_code

groups-total :
    (date_from date_to : Option ℕ) (t : Table Report)
    → group_total (groups date_from date_to t) ≡ length (filter (is_coded date_from date_to) t)
unfolding groups group_total filter
groups-total date_from date_to [] = refl
groups-total date_from date_to ((k, r) ∷ t) = elim (Option-cases r.field_reporter_code) [
  | inl e ↦ ground (arith, groups-total date_from date_to t)
  | inr (code, e) ↦ ground (
    arith,
    groups-total date_from date_to t,
    count_report-total code r.status (groups date_from date_to t),
  )
]

insert-paid :
    (sorted : FieldReporterSummaryRow → FieldReporterSummaryRow → Bool)
    (r : FieldReporterSummaryRow) (rs : List FieldReporterSummaryRow)
    → paid_total (insert sorted r rs) ≡ r.total + paid_total rs
unfolding insert paid_total
insert-paid sorted r [] = refl
insert-paid sorted r (s ∷ ss) = ground (arith, insert-paid sorted r ss)

sort_by-paid :
    (sorted : FieldReporterSummaryRow → FieldReporterSummaryRow → Bool)
    (rs : List FieldReporterSummaryRow)
    → paid_total (sort_by sorted rs) ≡ paid_total rs
unfolding sort_by paid_total
sort_by-paid sorted [] = refl
sort_by-paid sorted (r ∷ rs) =
    ground (arith, insert-paid sorted r (sort_by sorted rs), sort_by-paid sorted rs)

registered-rows :
    (fs : List FieldReporter)
    → All RowAddsUp (registered_rows fs) × (paid_total (registered_rows fs) ≡ 0)
unfolding registered_rows paid_total
registered-rows [] = (tt, refl)
registered-rows (f ∷ fs) = let (h, e) = registered-rows fs in ((refl, h), omega (arith, e))

-- A code that has a row keeps one.
has_row-add_group :
    (code : String) (g : Group) (rows : List FieldReporterSummaryRow)
    → has_row code rows ≡ true
    → has_row code (add_group g rows) ≡ true
unfolding has_row add_group
has_row-add_group code g [] h = absurd (ground (arith, h))
has_row-add_group code g (r ∷ rs) h = ground (arith, has_row-add_group code g rs, h)

has_row-add_groups :
    (code : String) (gs : List Group) (rows : List FieldReporterSummaryRow)
    → has_row code rows ≡ true
    → has_row code (add_groups gs rows) ≡ true
unfolding add_groups
has_row-add_groups code [] rows h = h
has_row-add_groups code (g ∷ gs) rows h =
    has_row-add_groups code gs (add_group g rows) (has_row-add_group code g rows h)

has_row-insert :
    (code : String) (sorted : FieldReporterSummaryRow → FieldReporterSummaryRow → Bool)
    (r : FieldReporterSummaryRow) (rs : List FieldReporterSummaryRow)
    → has_row code (insert sorted r rs) ≡ has_row code (r ∷ rs)
unfolding has_row insert
has_row-insert code sorted r [] = refl
has_row-insert code sorted r (s ∷ ss) = ground (arith, has_row-insert code sorted r ss)

has_row-sort_by :
    (code : String) (sorted : FieldReporterSummaryRow → FieldReporterSummaryRow → Bool)
    (rs : List FieldReporterSummaryRow)
    → has_row code (sort_by sorted rs) ≡ has_row code rs
unfolding has_row sort_by
has_row-sort_by code sorted [] = refl
has_row-sort_by code sorted (r ∷ rs) =
    ground (arith, has_row-insert code sorted r (sort_by sorted rs), has_row-sort_by code sorted rs)

registered-has_row :
    (fs : List FieldReporter) → All (λ f. has_row f.code (registered_rows fs) ≡ true) fs
unfolding has_row registered_rows
registered-has_row [] = tt
registered-has_row (f ∷ fs) = (
  rw (same_as_refl f.code) refl,
  All-weaken _ _ fs (λ g h. ground (arith, h)) (registered-has_row fs),
)

-- Each row of the payment summary splits its total into the four outcomes, and the totals of all rows
-- add up to the number of reports of the period that carry a code: no report is counted twice or left
-- out. Every registered code has a row.
pub payment_summary-total :
    (sorted : String → String → Bool) (fs : List FieldReporter) (date_from date_to : Option ℕ)
    (t : Table Report)
    → let rows = payment_summary sorted fs date_from date_to t in
      All RowAddsUp rows
      × (paid_total rows ≡ length (filter (is_coded date_from date_to) t))
      × All (λ f. has_row f.code rows ≡ true) fs
unfolding payment_summary
payment_summary-total sorted fs date_from date_to t =
    let gs = groups date_from date_to t in
    let (h, e) = registered-rows fs in
    (
      sort_by-All RowAddsUp _ (add_groups gs (registered_rows fs))
          (add_groups-AddsUp gs (registered_rows fs) h),
      ground (
        arith,
        sort_by-paid (λ r s. sorted r.code s.code) (add_groups gs (registered_rows fs)),
        add_groups-total gs (registered_rows fs),
        groups-total date_from date_to t,
        e,
      ),
      All-weaken _ _ fs
          (λ f has.
            has_row-sort_by f.code (λ r s. sorted r.code s.code)
              (add_groups gs (registered_rows fs))
            ∙ has_row-add_groups f.code gs (registered_rows fs) has)
          (registered-has_row fs),
    )
