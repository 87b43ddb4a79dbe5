-- ===== src/Lifecycle/MergeReview.antt =====
-- The merge review: what confirming and refusing a queued merge do to the report.
use matata_backend.Common.{
  ℕ, String, ◌≡◌, ◌≢◌, refl, Option, none, some, ok, err, Option-cases, Bool-cases, inl, inr, arith,
  truthy, not, ◌&&◌, ◌==◌, ==_refl, if◌then◌else◌,
}
use matata_backend.Common.Table.{find, put, find-put, AllRows}
use matata_backend.Models.{ReportStatus, Report, Database}
use matata_backend.Analyst.Monad.{not_pending_merge}
use matata_backend.Analyst.Merge.{confirm_pending_merge, reject_pending_merge}
use matata_backend.Lifecycle.Invariant.{RowOk}

abbrev merged : ℕ → Report → Report
merged p r = record r {
  status = ReportStatus.duplicate;
  duplicate_of_id = some p;
  possible_duplicate_of_id = none;
}

-- The report has become a duplicate of `p`, and waits for nothing.
abbrev pub MergedInto : ℕ → Option Report → Type 0
MergedInto p o =
    (s : Report) × (o ≡ some s)
    × (s.status ≡ ReportStatus.duplicate)
    × (s.duplicate_of_id ≡ some p)
    × (s.possible_duplicate_of_id ≡ none)

confirm_named :
    (k p : ℕ) (a : String) (db : Database) (r : Report)
    → find k db.reports ≡ some r
    → r.status ≡ ReportStatus.pending_merge_review
    → r.possible_duplicate_of_id ≡ some p
    → ((confirm_pending_merge k a db).0 ≡ ok p)
      × MergedInto p (find k (confirm_pending_merge k a db).1.reports)
unfolding confirm_pending_merge
confirm_named k p a db r e s f = elim (Option-cases (find p (put k (merged p r) db.reports))) [
  | inl g ↦ (
    ground arith,
    (merged p r, ground (arith, find-put k k (merged p r) r db.reports e), refl, refl, refl),
  )
  | inr (q, g) ↦ elim (Bool-cases (truthy r.photo_url && not (truthy q.photo_url))) [
    | inl h ↦ (
      ground arith,
      (
        merged p r,
        ground (
          arith,
          find-put k k (merged p r) r db.reports e,
          find-put p k (merged p r) r db.reports e,
          find-put k p (record q { photo_url = r.photo_url }) q (put k (merged p r) db.reports) g,
        ),
        refl,
        refl,
        refl,
      ),
    )
    | inr h ↦ (
      ground arith,
      (merged p r, ground (arith, find-put k k (merged p r) r db.reports e), refl, refl, refl),
    )
  ]
]

-- In a consistent database an analyst can always confirm a queued merge: the report becomes a
-- duplicate of the primary that it named.
pub confirm_total :
    (k : ℕ) (a : String) (db : Database) (r : Report)
    → AllRows (λ j q. RowOk q) db.reports
    → find k db.reports ≡ some r
    → r.status ≡ ReportStatus.pending_merge_review
    → (p : ℕ) × (r.possible_duplicate_of_id ≡ some p)
      × ((confirm_pending_merge k a db).0 ≡ ok p)
      × MergedInto p (find k (confirm_pending_merge k a db).1.reports)
confirm_total k a db r valid e s = elim (Option-cases r.possible_duplicate_of_id) [
  | inl f ↦ absurd ((valid k r e).queued s f)
  | inr (p, f) ↦ let (done, row) = confirm_named k p a db r e s f in (p, f, done, row)
]

not_waiting :
    (k : ℕ) (a : String) (db : Database) (r : Report)
    → find k db.reports ≡ some r
    → r.status ≢ ReportStatus.pending_merge_review
    → (confirm_pending_merge k a db ≡ (err not_pending_merge, db))
      × (reject_pending_merge k a db ≡ (err not_pending_merge, db))
unfolding confirm_pending_merge reject_pending_merge
not_waiting k a db r found other = (ground arith, ground arith)

-- A refused merge puts the report back among the pending ones, with no possible primary and no score,
-- and every other report stays as it was.
pub reject_restores :
    (k j : ℕ) (a : String) (db : Database) (r : Report)
    → find k db.reports ≡ some r
    → r.status ≡ ReportStatus.pending_merge_review
    → find j (reject_pending_merge k a db).1.reports ≡ (
        if j == k
        then some (record r {
          status = ReportStatus.pending;
          possible_duplicate_of_id = none;
          duplicate_score = none;
        })
        else find j db.reports)
unfolding reject_pending_merge
reject_restores k j a db r found s = ground (
  arith,
  find-put j k
      (record r {
        status = ReportStatus.pending;
        possible_duplicate_of_id = none;
        duplicate_score = none;
      })
      r db.reports found,
)

-- A queued merge is decided once: in a consistent database, after confirming it and after refusing
-- it, both calls are refused, whoever makes them, and write nothing.
pub review_once :
    (k : ℕ) (a a' : String) (db : Database) (r : Report)
    → AllRows (λ j q. RowOk q) db.reports
    → find k db.reports ≡ some r
    → r.status ≡ ReportStatus.pending_merge_review
    → let db1 = (confirm_pending_merge k a db).1 in
      let db2 = (reject_pending_merge k a db).1 in
      (confirm_pending_merge k a' db1 ≡ (err not_pending_merge, db1))
      × (reject_pending_merge k a' db1 ≡ (err not_pending_merge, db1))
      × (confirm_pending_merge k a' db2 ≡ (err not_pending_merge, db2))
      × (reject_pending_merge k a' db2 ≡ (err not_pending_merge, db2))
review_once k a a' db r valid found waits =
    let (p, named, done, (s, e, dup, into, clear)) = confirm_total k a db r valid found waits in
    let restored = reject_restores k k a db r found waits in
    let (c1, r1) = not_waiting k a' (confirm_pending_merge k a db).1 s e (ground (arith, dup)) in
    let (c2, r2) =
      not_waiting k a' (reject_pending_merge k a db).1
        (record r {
          status = ReportStatus.pending;
          possible_duplicate_of_id = none;
          duplicate_score = none;
        })
        (rw (==_refl k) at restored) (ground arith) in
    (c1, r1, c2, r2)
