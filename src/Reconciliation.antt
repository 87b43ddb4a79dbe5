-- ===== src/Reconciliation.antt =====
-- The sweep of app/workers/reconciliation_tasks.py that drives stuck reports again: `_STUCK_QUERY` and
-- `_reconcile_impl`. Whether Redis answers the `ping`, and whether it takes the seed of a report's gate,
-- are arguments; the broker takes every task. Times are seconds.
pub mod Settled
pub mod Seeds
use matata_backend.Common.{
  ℕ, ◌+◌, ◌*◌, String, Bool, true, false, not, ◌&&◌, ◌||◌, Option, none, some, List, [], ◌∷◌, ltb,
  leb, ◌==◌, is_some, ◌same_as◌, if◌then◌else◌,
}
use matata_backend.Common.Lists.{take}
use matata_backend.Common.Sort.{filter, sort_by}
use matata_backend.Common.Table.{Table}
use matata_backend.Models.{PhotoStatus, ReportStatus, Report, AuditLog, Database, status_eq}

-- `_AI_TERMINAL_PHOTO_STATES`
abbrev ai_terminal : PhotoStatus → Bool
ai_terminal PhotoStatus.accepted = true
ai_terminal PhotoStatus.insufficient_quality = true
ai_terminal PhotoStatus.ai_processing_failed = true
ai_terminal _ = false

abbrev default_grace_minutes : ℕ
default_grace_minutes = 15

abbrev default_limit : ℕ
default_limit = 500

abbrev max_age_hours : ℕ
max_age_hours = 72

abbrev is_dedup_audit : ℕ → AuditLog → Bool
is_dedup_audit k a =
    (a.record_id == k)
    && ((a.operation same_as "report.duplicate_scored")
        || (a.operation same_as "report.pending_merge_review"))

-- `_DEDUP_DONE_EXISTS`
unfoldable pub dedup_done : ℕ → List AuditLog → Bool
dedup_done k [] = false
dedup_done k (a ∷ log) = let older = dedup_done k log in is_dedup_audit k a || older

abbrev pub needs_gis : Report → Bool
needs_gis r = not (is_some r.footprint_match_confidence)

abbrev pub needs_ai : Report → Bool
needs_ai r = is_some r.photo_url && not (ai_terminal r.photo_status)

abbrev pub needs_dedup : ℕ → Database → Bool
needs_dedup k db = not (dedup_done k db.audit)

-- The row was submitted in the time that the sweep looks at.
abbrev in_window : ℕ → ℕ → Report → Bool
in_window grace_minutes now r =
    ltb (r.created_at + grace_minutes * 60) now && ltb now (r.created_at + max_age_hours * 3600)

-- The `WHERE` of the query.
unfoldable pub is_stuck : ℕ → ℕ → Database → ℕ × Report → Bool
is_stuck grace_minutes now db (k, r) =
    status_eq r.status ReportStatus.pending
    && in_window grace_minutes now r
    && (needs_gis r || needs_ai r || needs_dedup k db)

pub record Stuck : Type 0 where
  pub id : ℕ
  pub needs_gis : Bool
  pub needs_ai : Bool
  pub needs_dedup : Bool

abbrev stuck_of : Database → ℕ × Report → Stuck
stuck_of db (k, r) = record {
  id = k;
  needs_gis = needs_gis r;
  needs_ai = needs_ai r;
  needs_dedup = needs_dedup k db;
}

unfoldable pub stuck_rows : ℕ → ℕ → ℕ → Database → List (ℕ × Report)
stuck_rows grace_minutes limit now db = take limit (
    sort_by (λ x y. leb x.1.created_at y.1.created_at)
      (filter (is_stuck grace_minutes now db) db.reports))

-- What the sweep sends.
pub data Command : Type 0 where
  seed : ℕ → ℕ → Command
  match_building process_report_image score_report : ℕ → Command

pub record Summary : Type 0 where
  pub scanned : ℕ
  pub gis : ℕ
  pub ai : ℕ
  pub dedup_direct : ℕ

abbrev pub nothing : Summary
nothing = record { scanned = 0; gis = 0; ai = 0; dedup_direct = 0 }

abbrev pub int : Bool → ℕ
int true = 1
int false = 0

abbrev pub send_if : Bool → Command → List Command → List Command
send_if b command rest = if b then command ∷ rest else rest

-- The commands for a row, and the summary after it.
unfoldable pub drive : (ℕ → Bool) → Stuck → Summary → List Command × Summary
drive takes_seed s summary =
    let steps = int s.needs_gis + int s.needs_ai in
    let scanned = record summary { scanned = summary.scanned + 1 } in
    if steps == 0
    then (
      send_if s.needs_dedup (score_report s.id) [],
      record scanned { dedup_direct = scanned.dedup_direct + int s.needs_dedup },
    )
    else if takes_seed s.id
    then (
      seed s.id steps
          ∷ send_if s.needs_gis (match_building s.id)
              (send_if s.needs_ai (process_report_image s.id) []),
      record scanned { gis = scanned.gis + int s.needs_gis; ai = scanned.ai + int s.needs_ai },
    )
    else ([], scanned)

-- The loop over the rows: the commands of each row, and the summary.
unfoldable pub drive_all : (ℕ → Bool) → List Stuck → Summary → List (List Command) × Summary
drive_all takes_seed [] summary = ([], summary)
drive_all takes_seed (s ∷ rest) summary =
    let (commands, summary') = drive takes_seed s summary in
    let (more, summary'') = drive_all takes_seed rest summary' in (commands ∷ more, summary'')

unfoldable pub stucks : Database → List (ℕ × Report) → List Stuck
stucks db [] = []
stucks db (x ∷ xs) = stuck_of db x ∷ stucks db xs

unfoldable pub reconcile : Bool → (ℕ → Bool) → ℕ → ℕ → ℕ → Database → List (List Command) × Summary
reconcile ping takes_seed grace_minutes limit now db =
    if ping
    then drive_all takes_seed (stucks db (stuck_rows grace_minutes limit now db)) nothing
    else ([], nothing)
