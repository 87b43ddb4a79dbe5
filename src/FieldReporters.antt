-- ===== src/FieldReporters.antt =====
-- Paid field reporters: app/services/field_reporter_service.py. The order of Python's texts, by which the
-- summary is sorted, is an argument.
pub mod Totals
use matata_backend.Common.{
  ℕ, suc, ◌+◌, String, Bool, true, false, ◌&&◌, Option, none, some, List, [], ◌∷◌, truthy, ltb, leb,
  ◌same_as◌, if◌then◌else◌,
}
use matata_backend.Common.Sort.{sort_by, filter}
use matata_backend.Common.Table.{Table}
use matata_backend.Models.{ReportStatus, Report, status_eq}

pub record FieldReporter : Type 0 where
  pub code : String
  pub email_hash : String
  pub is_active : Bool

-- `lookup_active_by_email_hash`; the hash is unique.
unfoldable pub lookup_active_by_email_hash : String → List FieldReporter → Option FieldReporter
lookup_active_by_email_hash hash [] = none
lookup_active_by_email_hash hash (f ∷ fs) =
    let later = lookup_active_by_email_hash hash fs in
    if (f.email_hash same_as hash) && f.is_active then some f else later

unfoldable pub code_for_subject : String → List FieldReporter → Option String
code_for_subject subject fs =
    if truthy (some subject)
    then elim (lookup_active_by_email_hash subject fs) [ none ↦ none | some f ↦ some f.code ]
    else none

pub record FieldReporterSummaryRow : Type 0 where
  pub code : String
  pub total : ℕ
  pub verified : ℕ
  pub pending : ℕ
  pub rejected : ℕ
  pub duplicate : ℕ

abbrev pub empty_row : String → FieldReporterSummaryRow
empty_row code = record {
  code = code;
  total = 0;
  verified = 0;
  pending = 0;
  rejected = 0;
  duplicate = 0;
}

-- The bucket of a status, `_STATUS_BUCKET`, and the total grow by a count.
abbrev pub add_count : ReportStatus → ℕ → FieldReporterSummaryRow → FieldReporterSummaryRow
add_count ReportStatus.verified n r = record r { verified = r.verified + n; total = r.total + n }
add_count ReportStatus.pending n r = record r { pending = r.pending + n; total = r.total + n }
add_count ReportStatus.rejected n r = record r { rejected = r.rejected + n; total = r.total + n }
add_count ReportStatus.duplicate n r = record r { duplicate = r.duplicate + n; total = r.total + n }
add_count ReportStatus.pending_merge_review n r = record r {
  pending = r.pending + n;
  total = r.total + n;
}

-- A group of the query: the code, the status, and the number of its reports.
pub record Group : Type 0 where
  pub code : String
  pub status : ReportStatus
  pub count : ℕ

abbrev pub is_group : String → ReportStatus → Group → Bool
is_group code status g = (g.code same_as code) && status_eq g.status status

-- One report more, in `GROUP BY field_reporter_code, status`.
unfoldable pub count_report : String → ReportStatus → List Group → List Group
count_report code status [] = record { code = code; status = status; count = 1 } ∷ []
count_report code status (g ∷ gs) =
    let rest = count_report code status gs in
    if is_group code status g then record g { count = suc g.count } ∷ gs else g ∷ rest

abbrev pub from : Option ℕ → ℕ → Bool
from none t = true
from (some date_from) t = leb date_from t

abbrev pub before : Option ℕ → ℕ → Bool
before none t = true
before (some date_to) t = ltb t date_to

-- The `WHERE` of the query.
abbrev pub in_period : Option ℕ → Option ℕ → Report → Bool
in_period date_from date_to r = from date_from r.created_at && before date_to r.created_at

abbrev pub count_coded : Option String → ReportStatus → List Group → List Group
count_coded none status gs = gs
count_coded (some code) status gs = count_report code status gs

unfoldable pub groups : Option ℕ → Option ℕ → Table Report → List Group
groups date_from date_to [] = []
groups date_from date_to ((k, r) ∷ t) =
    let rest = groups date_from date_to t in
    if in_period date_from date_to r then count_coded r.field_reporter_code r.status rest else rest

-- `rows.setdefault(code, …)`, and the count added to the row.
unfoldable pub add_group : Group → List FieldReporterSummaryRow → List FieldReporterSummaryRow
add_group g [] = add_count g.status g.count (empty_row g.code) ∷ []
add_group g (r ∷ rs) =
    let rest = add_group g rs in
    if r.code same_as g.code then add_count g.status g.count r ∷ rs else r ∷ rest

unfoldable pub add_groups : List Group → List FieldReporterSummaryRow → List FieldReporterSummaryRow
add_groups [] rows = rows
add_groups (g ∷ gs) rows = add_groups gs (add_group g rows)

unfoldable pub has_row : String → List FieldReporterSummaryRow → Bool
has_row code [] = false
has_row code (r ∷ rs) = let later = has_row code rs in if r.code same_as code then true else later

-- `rows[code] = FieldReporterSummaryRow(code=code)` for every registered code; the codes are unique.
unfoldable pub registered_rows : List FieldReporter → List FieldReporterSummaryRow
registered_rows [] = []
registered_rows (f ∷ fs) = empty_row f.code ∷ registered_rows fs

unfoldable pub payment_summary :
    (String → String → Bool)
    → List FieldReporter
    → Option ℕ
    → Option ℕ
    → Table Report
    → List FieldReporterSummaryRow
payment_summary sorted fs date_from date_to t =
    sort_by (λ r s. sorted r.code s.code)
      (add_groups (groups date_from date_to t) (registered_rows fs))
