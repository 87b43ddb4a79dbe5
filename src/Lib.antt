-- ===== src/Lib.antt =====
-- A model of the core of a crisis-mapping backend: citizens report damage to buildings with a photo,
-- workers match the report to a building, have the photo classified and look for duplicates, analysts
-- verify, reject and merge the reports, and each building shows the worst damage that is reported of it.
-- The services are Python over a SQL database and a Redis server, the workers Celery tasks.
--
-- The parts, and where they are modelled:
--   Models     the rows of app/models as records, and the vocabularies of app/models/enums.py.
--   Analyst    app/services/analyst_service.py. A call is an `Action`: it takes the database and gives a
--              result or the exception that it raises, and the database as the session has it by then.
--              `request` is the route around a call (app/core/dependencies.py): it commits if the call
--              returns and rolls back if it raises. Transition is `transition_report_status`, Severity
--              is `_recompute_building_severity`, Merge has `merge_reports`, `confirm_pending_merge` and
--              `reject_pending_merge`, Review has `create_analyst_note`, `request_more_info` and
--              `set_severity_override`. The reads are functions of the tables: Listing is `list_reports`,
--              Stats has `get_stats_summary`, `get_heatmap` and `get_damaged_buildings`, Accuracy is
--              `get_ai_accuracy` with the calibration that it keeps in Redis.
--   Duplicate  Signals and Scorer are app/services/duplicate_service.py; Candidates and Task are
--              `_load_candidates` and `_score_report_impl` of app/workers/duplicate_tasks.py.
--              Dispatch is the gate of app/workers/duplicate_dispatch.py, where several workers count
--              down a number in Redis: a schedule says whose command runs next, and when the key expires.
--   Gis        Match and Severity are app/services/gis_service.py; Task is `_match_building_impl` of
--              app/workers/gis_tasks.py.
--   Ai         Task is the image task of app/workers/ai_tasks.py, Priority the analysts' queue.
--   Celery     how `Task.retry` ends, which the tasks take as a parameter.
--   Submission app/services/submission_service.py: Limit is `_check_rate_limit`, Create
--              `create_report` with the route that sends the jobs (app/api/v1/routes/reports.py),
--              Photo is `add_photo_to_report`, Followup the
--              reporter's answer to a request for more information, Own is `list_own_reports` and
--              Nearby `get_nearby_reports` with its cache.
--   Lifecycle  the parts that write reports together: `RowStep` is what may happen to a report row, a
--              history is a list of requests, tasks and sweeps in any order (`Op`, `run`), and the
--              modules below it relate the histories to the rows and to the buildings.
--   Reconciliation  app/workers/reconciliation_tasks.py, the sweep for reports that got stuck.
--   Retention  app/workers/retention_tasks.py, the sweep that deletes old photos.
--   FieldReporters  app/services/field_reporter_service.py, the codes and the payment summary.
--   Auth       app/services/auth_service.py: RateLimit, Otp (`send_otp`, `verify_otp`) and Tokens
--              (refresh tokens, sign-out, `verify_access_token`), Accounts, over `Redis`, an interface of the
--              server's commands and of the passing of time, which Redis/Memory implements.
--   Common     what the parts share: tables, results, sorting, tests on numbers and texts.
--   Tests      concrete databases and runs.
--
-- How the data is modelled. Identifiers are compared only, so they are numbers, and a row's id is its
-- key in the table. Times are seconds. Coordinates are millionths of a degree, and scores, weights,
-- shares and thresholds are millionths, so that the code computes with exact numbers where the source
-- uses floating point and rounds. The scorer counts distances in millionths of 50 m, the length of its
-- decay, and the map part in millimetres; the distance functions (trigonometry in app/utils/geo.py), the
-- exponential of the map part and PostGIS's tests are parameters. So are the regular expression and
-- `bleach` of the text sanitiser, the hash of a phone number, the SMS gateway, the JWT library, the vision,
-- moderation and geocoding providers, the object storage, the retries of Celery, random identifiers and
-- the clock. The loops are structural recursion over the rows, so no fuel is needed; the limits of the
-- queries are kept. What a database makes of `ORDER BY` in a query that is read page by page is a
-- parameter: any arrangement of the rows that is sorted; the other queries keep the table's order among
-- rows that tie. The attempts of a task are a list of the answers that it gets, one for each attempt;
-- a task whose list is too short for its retries stays to be retried.
--
-- Requests and jobs are whole transactions, one after the other, and a task that commits in between
-- keeps what it committed; two that overlap are not modelled; only the gate of Dispatch interleaves
-- single commands. Not modelled are the details of a report, buildings in a bounding box and
-- the caches of the map, the import and the CSV of field reporters, notifications, export, translations, the
-- command line and the HTTP layer: these are mostly queries and formats, or calls of outside services.
pub mod Common
pub mod Models
pub mod Analyst
pub mod Duplicate
pub mod Lifecycle
pub mod Ai
pub mod Celery
pub mod Gis
pub mod Retention
pub mod Reconciliation
pub mod FieldReporters
pub mod Submission
pub mod Auth
mod Tests
