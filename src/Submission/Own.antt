-- ===== src/Submission/Own.antt =====
-- The list of a reporter's own reports: `list_own_reports` of app/services/submission_service.py. A page
-- number is at least 1, as the route demands. The hash of a token is an argument,
-- and so is what the database makes of `ORDER BY` in a query.
pub mod Pages
use matata_backend.Common.{ℕ, String, Bool, List, leb, ◌same_as◌}
use matata_backend.Common.Lists.{length}
use matata_backend.Common.Sort.{filter, page_of}
use matata_backend.Common.Table.{Table}
use matata_backend.Models.{Report, Database}

-- `.where(Report.reporter_token_hash == token_hash)`
abbrev pub own_rows : String → Table Report → List (ℕ × Report)
own_rows token_hash = filter λ (k, r). r.reporter_token_hash same_as token_hash

-- `.order_by(Report.created_at.desc())`
abbrev pub latest_first : ℕ × Report → ℕ × Report → Bool
latest_first (i, r) (j, s) = leb s.created_at r.created_at

-- The reports of a page, and how many there are.
unfoldable pub list_own_reports :
    (List (ℕ × Report) → List (ℕ × Report))
    → (String → String)
    → String
    → ℕ
    → ℕ
    → Database
    → List (ℕ × Report) × ℕ
list_own_reports ordered hash_token token page limit db =
    let own = own_rows (hash_token token) db.reports in
    (page_of page limit (ordered own), length own)
