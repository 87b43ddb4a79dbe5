-- ===== src/Analyst/Listing/Pages.antt =====
-- The pages of the dashboard's list, put together.
use mathlib.Core.List.{Perm}
use matata_backend.Common.{
  ℕ, zero, suc, ℤ, ◌≤◌, ◌*◌, ◌≡◌, refl, ◌∙◌, String, Bool, List, [], ◌++◌, arith,
}
use matata_backend.Common.Lists.{length}
use matata_backend.Common.Sort.{
  sort_by, pages, pages-all, IsSorted, IsOrder, sort_by-IsSorted, sort_by-perm, sort_by-length,
}
use matata_backend.Common.Order.{NoTies, IsOrderBy, ordered-sort_by}
use matata_backend.Models.{Database}
use matata_backend.Analyst.Listing.{
  Row, Filters, SortBy, order_by, list_reports, selected, desc, priority_order, destroyed_first,
}

-- A key before an order is an order.
desc-IsOrder :
    (key : Row → ℕ) (next : Row → Row → Bool)
    → IsOrder next
    → IsOrder (λ x y. desc (key x) (key y) (next x y))
desc-IsOrder key next order = record {
  total = λ x y h. ground (arith, order.total x y);
  trans = λ x y z h g. ground (arith, order.trans x y z);
}

newest-IsOrder : IsOrder (order_by SortBy.created_at)
unfolding order_by
newest-IsOrder = record { total = λ x y h. ground arith; trans = λ x y z h g. ground arith }

-- Each of the three orders of the list is one.
pub order_by-IsOrder : (sort : SortBy) → IsOrder (order_by sort)
unfolding order_by
order_by-IsOrder SortBy.created_at = newest-IsOrder
order_by-IsOrder SortBy.severity =
    desc-IsOrder (λ x. priority_order x.1.review_priority) _
      (desc-IsOrder (λ x. destroyed_first x.1.damage_severity) _ newest-IsOrder)
order_by-IsOrder SortBy.priority =
    desc-IsOrder (λ x. priority_order x.1.review_priority) _ newest-IsOrder

-- `ordered` is what the database makes of the order in the query for each page.
module _ (st_within : String → ℤ → ℤ → Bool) (ordered : ℕ → List Row → List Row) where
  -- What the first pages of the list show, one after the other.
  unfoldable pub shown : ℕ → Filters → ℕ → Database → List Row
  shown zero f limit db = []
  shown (suc n) f limit db =
      let before = shown n f limit db in
      before ++ (list_reports st_within (ordered (suc n)) f (suc n) limit db).items

  shown-pages :
      (n : ℕ) (f : Filters) (sort : SortBy) (limit : ℕ) (db : Database)
      → ((page : ℕ) → IsOrderBy (order_by sort) (ordered page))
      → NoTies (order_by sort) (selected st_within f db)
      → shown n f limit db ≡ pages n limit (sort_by (order_by sort) (selected st_within f db))
  unfolding shown pages list_reports
  shown-pages zero f sort limit db sql apart = refl
  shown-pages (suc n) f sort limit db sql apart =
      let rows = selected st_within f db in
      let q = sql (suc n) in
      let e : ordered (suc n) rows ≡ sort_by (order_by sort) rows =
        ordered-sort_by (order_by sort) (order_by-IsOrder sort) rows (ordered (suc n) rows)
          (q.rows rows) apart (q.sorted rows) in
      rw (e, shown-pages n f sort limit db sql apart) refl

  -- If no two of the reports that the filters admit tie in the order asked for, then a reader who turns
  -- enough pages, by the total that every page gives, sees each of them exactly once and in that order,
  -- however the database orders each query.
  pub list_reports-pages :
      (n page : ℕ) (f : Filters) (sort : SortBy) (limit : ℕ) (db : Database)
      → ((page : ℕ) → IsOrderBy (order_by sort) (ordered page))
      → NoTies (order_by sort) (selected st_within f db)
      → (list_reports st_within (ordered page) f page limit db).total ≤ n * limit
      → Perm (shown n f limit db) (selected st_within f db)
        × IsSorted (order_by sort) (shown n f limit db)
        × (length (shown n f limit db)
            ≡ (list_reports st_within (ordered page) f page limit db).total)
  unfolding list_reports
  list_reports-pages n page f sort limit db sql apart h =
      let rows = selected st_within f db in
      let sorted = sort_by (order_by sort) rows in
      let e : shown n f limit db ≡ sorted =
        shown-pages n f sort limit db sql apart
        ∙ pages-all n limit sorted (rw (sort_by-length (order_by sort) rows) h) in
      rw (e) (
        sort_by-perm (order_by sort) rows,
        sort_by-IsSorted (order_by sort) (order_by-IsOrder sort) rows,
        sort_by-length (order_by sort) rows,
      )
