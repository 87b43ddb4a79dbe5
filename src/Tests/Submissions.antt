-- ===== src/Tests/Submissions.antt =====
-- A submission to the small database, and the lists that a reporter sees of it.
use matata_backend.Common.Order.{sort_by-IsOrderBy}
use matata_backend.Models.{Database}
use matata_backend.Common.{ℕ, ℤ, ◌/◌, none, List, [], ◌∷◌, pos, arith}
use matata_backend.Common.Lists.{All, take}
use matata_backend.Common.Sort.{sort_by, filter, IsSorted}
use matata_backend.Common.Table.{find}
use matata_backend.Submission.Create.{SubmissionSettings, submit_report}
use matata_backend.Submission.Create.Stored.{Outcome, submit_report-Outcome}
use matata_backend.Submission.Own.{latest_first, list_own_reports}
use matata_backend.Submission.Own.Pages.{
  latest-IsOrder, shown, IsOwn, IsListed, list_own_reports-exact,
}
use matata_backend.Submission.Nearby.Recent.{Call, answers, Answered, get_nearby_reports-Answered}
use matata_backend.Tests.Data.{form, counters, small_database, lenient, taxicab}

abbrev plain_settings : SubmissionSettings
plain_settings = record {
  hash_token = λ s. s;
  strip_dangerous = λ s. s;
  clean = λ s. s;
  submissions_per_hour = 10;
}

submit_report-Outcome_example :
    Outcome plain_settings lenient [] 9 10 form "sender" 9000 counters small_database
      (submit_report plain_settings lenient [] 9 10 form "sender" 9000 counters small_database)
submit_report-Outcome_example =
    submit_report-Outcome plain_settings lenient [] 9 10 form "sender" 9000 counters small_database

-- Two reports of one reporter, at different times.
abbrev two_reports : Database
two_reports = record small_database { reports = take 2 small_database.reports }

list_own_reports-exact_example :
    let pages = shown (λ page. sort_by latest_first) (λ s. s) "owner" 2 1 two_reports in
    All (IsOwn (λ s. s) "owner" two_reports) pages
    × All (IsListed (λ s. s) "owner" two_reports pages) two_reports.reports
    × IsSorted latest_first pages
unfolding find filter list_own_reports
list_own_reports-exact_example =
    list_own_reports-exact (λ page. sort_by latest_first) (λ s. s) "owner" 2 1 1 two_reports
      (λ page. sort_by-IsOrderBy latest_first latest-IsOrder) (ground arith) (ground arith)
      (ground arith)

-- Two checks at the same corner, ten seconds apart.
abbrev checks : List Call
checks =
    record { pause = 0; lat = pos 1000000; lng = pos 2000000; radius_m = 30000 }
    ∷ record { pause = 10; lat = pos 1000010; lng = pos 2000000; radius_m = 30000 }
    ∷ []

-- A tenth of a metre for each millionth of a degree, along the two axes.
abbrev millimetres : ℤ → ℤ → ℤ → ℤ → ℕ
millimetres a b c d = taxicab a b c d / 20

get_nearby_reports-Answered_example :
    All (Answered (λ radius lat. radius / 100) millimetres (λ now. small_database.reports)) (
      answers
        (λ radius lat. radius / 100)
        millimetres
        (λ now. small_database.reports)
        9000
        checks
        (λ key. none))
get_nearby_reports-Answered_example =
    get_nearby_reports-Answered (λ radius lat. radius / 100) millimetres
      (λ now. small_database.reports) 9000 checks
