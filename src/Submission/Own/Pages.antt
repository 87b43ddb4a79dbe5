-- ===== src/Submission/Own/Pages.antt =====
-- The pages of a reporter's list, put together.
use mathlib.Core.List.{Mem}
use mathlib.Core.List.Perm
use matata_backend.Common.{
  ℕ, zero, suc, ◌≤◌, ◌*◌, ◌≡◌, refl, ◌∙◌, String, true, false, List, [], ◌++◌, some, ok, err, ◌⊎◌,
  inl, inr, ◌same_as◌, arith,
}
use matata_backend.Common.Lists.{All, All-pair, All-weaken}
use matata_backend.Common.Table.{Table, find}
use matata_backend.Common.Sort.{
  sort_by, pages, pages-all, sort_by-All, sort_by-perm, sort_by-length, filter-All, filter-mem,
  IsSorted, IsOrder, sort_by-IsSorted,
}
use matata_backend.Common.Order.{NoTies, IsOrderBy, ordered-sort_by}
use matata_backend.Models.{Report, Database}
use matata_backend.Analyst.Monad.{not_owner}
use matata_backend.Submission.Followup.{get_own_report}
use matata_backend.Submission.Own.{own_rows, latest_first, list_own_reports}

-- Every row is the one that is found under its key.
abbrev pub IsKeyed : Table Report → Type 0
IsKeyed t = All (λ (k, r). find k t ≡ some r) t

pub latest-IsOrder : IsOrder latest_first
latest-IsOrder = record { total = λ x y h. ground arith; trans = λ x y z h g. ground arith }

module _ (hash_token : String → String) (token : String) where
  -- The report is answered to the reporter.
  abbrev pub IsOwn : Database → ℕ × Report → Type 0
  IsOwn db (k, r) = get_own_report hash_token k token db ≡ (ok r, db)

  -- The report is listed, or refused to the reporter.
  abbrev pub IsListed : Database → List (ℕ × Report) → ℕ × Report → Type 0
  IsListed db rows (k, r) =
      Mem (k, r) rows ⊎ (get_own_report hash_token k token db ≡ (err not_owner, db))

  IsOwn-found :
      (k : ℕ) (r : Report) (db : Database)
      → find k db.reports ≡ some r
      → (r.reporter_token_hash same_as hash_token token) ≡ true
      → IsOwn db (k, r)
  unfolding get_own_report
  IsOwn-found k r db found own = ground (arith, found, own)

  other_refused :
      (k : ℕ) (r : Report) (db : Database)
      → find k db.reports ≡ some r
      → (r.reporter_token_hash same_as hash_token token) ≡ false
      → get_own_report hash_token k token db ≡ (err not_owner, db)
  unfolding get_own_report
  other_refused k r db found other = ground (arith, found, other)

-- `ordered` is what the database makes of the order in the query for each page.
module _ (ordered : ℕ → List (ℕ × Report) → List (ℕ × Report)) (hash_token : String → String)
    (token : String) where
  -- The first pages of the list, one after the other.
  unfoldable pub shown : ℕ → ℕ → Database → List (ℕ × Report)
  shown zero limit db = []
  shown (suc n) limit db =
      let before = shown n limit db in
      before ++ (list_own_reports (ordered (suc n)) hash_token token (suc n) limit db).0

  shown-pages :
      (n limit : ℕ) (db : Database)
      → ((page : ℕ) → IsOrderBy latest_first (ordered page))
      → NoTies latest_first (own_rows (hash_token token) db.reports)
      → shown n limit db
        ≡ pages n limit (sort_by latest_first (own_rows (hash_token token) db.reports))
  unfolding shown pages list_own_reports
  shown-pages zero limit db sql apart = refl
  shown-pages (suc n) limit db sql apart =
      let rows = own_rows (hash_token token) db.reports in
      let q = sql (suc n) in
      let e : ordered (suc n) rows ≡ sort_by latest_first rows =
        ordered-sort_by latest_first latest-IsOrder rows (ordered (suc n) rows) (q.rows rows) apart
          (q.sorted rows) in
      rw (e, shown-pages n limit db sql apart) refl

  -- If keys are unique and no two reports of the reporter were submitted at the same time, then a reporter
  -- who turns enough pages sees, latest first, only reports that the service gives them one by one, and
  -- each report that is not on the pages is refused to them as somebody else's, however the database
  -- orders each query.
  pub list_own_reports-exact :
      (n page limit : ℕ) (db : Database)
      → ((page : ℕ) → IsOrderBy latest_first (ordered page))
      → IsKeyed db.reports
      → NoTies latest_first (own_rows (hash_token token) db.reports)
      → (list_own_reports (ordered page) hash_token token page limit db).1 ≤ n * limit
      → All (IsOwn hash_token token db) (shown n limit db)
        × All (IsListed hash_token token db (shown n limit db)) db.reports
        × IsSorted latest_first (shown n limit db)
  unfolding list_own_reports
  list_own_reports-exact n page limit db sql keyed apart enough =
      let p : ℕ × Report → _ = λ x. x.1.reporter_token_hash same_as hash_token token in
      let own = own_rows (hash_token token) db.reports in
      let sorted = sort_by latest_first own in
      let e : shown n limit db ≡ sorted =
        shown-pages n limit db sql apart
        ∙ pages-all n limit sorted (rw (sort_by-length latest_first own) enough) in
      rw (e) (
        sort_by-All (IsOwn hash_token token db) latest_first own (
            All-weaken _ (IsOwn hash_token token db) own
              (λ (k, r) (found, h). IsOwn-found hash_token token k r db found h)
              (filter-All _ p db.reports keyed)),
        All-weaken _ (IsListed hash_token token db sorted) db.reports
            (λ (k, r) (found, h). elim h [
              | inl m ↦ inl ((Perm.mem_iff (sort_by-perm latest_first own)).1 m)
              | inr other ↦ inr (other_refused hash_token token k r db found other)
            ])
            (All-pair _ _ db.reports keyed (filter-mem p db.reports)),
        sort_by-IsSorted latest_first latest-IsOrder own,
      )
