-- ===== src/Tests/Followups.antt =====
-- A question to the reporter of the small database, and the answers.
use matata_backend.Common.{◌≡◌, ◌↔◌, refl, String, some, ok, truthy, true, ◌same_as◌, arith}
use matata_backend.Common.Table.{find, put}
use matata_backend.Models.{Report, Database}
use matata_backend.Analyst.Review.{sanitise_text, request_more_info}
use matata_backend.Submission.Followup.{get_own_report, has_open_request, add_reporter_followup}
use matata_backend.Submission.Followup.Answer.{
  asked, answered, followup_accepts, followup-request_more_info,
}
use matata_backend.Tests.Data.{pending_report, small_database}

abbrev same_text : String → String
same_text s = s

abbrev asked_database : Database
asked_database = (request_more_info same_text same_text 1 "where?" "a" 6000 small_database).1

abbrev asked_report : Report
asked_report = asked (some "where?") 6000 pending_report

question :
    (request_more_info same_text same_text 1 "where?" "a" 6000 small_database).0 ≡ ok asked_report
unfolding request_more_info sanitise_text find put
question = refl

asked_row : find 1 asked_database.reports ≡ some asked_report
unfolding request_more_info sanitise_text find put
asked_row = ground arith

answer_done :
    (add_reporter_followup same_text same_text same_text 1 "owner" "by the bridge" 6100
      asked_database).0
    ≡ ok (answered (some "by the bridge") 6100 asked_report)
unfolding request_more_info add_reporter_followup get_own_report sanitise_text find put
answer_done = refl

followup_accepts_example :
    ((r' : Report) × ((add_reporter_followup same_text same_text same_text 1 "owner" "by the bridge"
          6100 asked_database).0
        ≡ ok r'))
    ↔ ((("owner" same_as "owner") ≡ true)
        × (has_open_request asked_report ≡ true)
        × (truthy (sanitise_text same_text same_text (some "by the bridge") 2000) ≡ true))
followup_accepts_example =
    followup_accepts same_text same_text same_text 1 "owner" "by the bridge" 6100 asked_database
      asked_report asked_row

followup-request_more_info_example :
    find 1
      (add_reporter_followup same_text same_text same_text 1 "owner" "by the bridge" 6100
        asked_database).1.reports
    ≡ some (
        answered
          (sanitise_text same_text same_text (some "by the bridge") 2000)
          6100
          (asked (sanitise_text same_text same_text (some "where?") 1000) 6000 pending_report))
unfolding find sanitise_text
followup-request_more_info_example =
    followup-request_more_info same_text same_text same_text 1 "where?" "a" "owner" "by the bridge"
      6000 6100 small_database pending_report asked_report refl question refl refl
