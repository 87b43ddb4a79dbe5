-- ===== src/Lifecycle/Step.antt =====
-- What may happen to one report row, by any operation of app/services/analyst_service.py,
-- app/services/submission_service.py (the follow-up) or by
-- app/workers/duplicate_tasks.py, ai_tasks.py and gis_tasks.py, and to a whole table row by row.
use matata_backend.Common.{
  ℕ, String, ◌≡◌, refl, Bool, true, List, Option, none, some, Bool-cases, inl, inr, ◌==◌, ==→eq,
}
use matata_backend.Common.Table.{Table, find, put, find-put, find-put_self}
use matata_backend.Models.{ReportStatus, ReportDamageSeverity, PhotoStatus, ReviewPriority, Report}
use matata_backend.Submission.Followup.{raised_priority}
use matata_backend.Analyst.Transition.{is_allowed, tier_after}

pub data RowStep (r r' : Report) : Type 0 where
  -- an analyst's decision
  decide :
      (s : ReportStatus)
      → is_allowed s r.status ≡ true
      → r' ≡ record r { status = s; reporter_trust_tier = tier_after s r.reporter_trust_tier }
      → RowStep r r'
  -- an analyst's manual merge
  merge :
      (p : ℕ)
      → r' ≡ record r { status = ReportStatus.duplicate; duplicate_of_id = some p }
      → RowStep r r'
  -- a merge hands on its photo
  adopt_photo : (photo : Option String) → r' ≡ record r { photo_url = photo } → RowStep r r'
  -- duplicate detection queues the report for a merge review, or flags it
  queue :
      (p score : ℕ)
      → r.status ≡ ReportStatus.pending
      → r' ≡ record r {
        status = ReportStatus.pending_merge_review;
        possible_duplicate_of_id = some p;
        duplicate_score = some score;
      }
      → RowStep r r'
  flag :
      (p score : ℕ)
      → r.status ≡ ReportStatus.pending
      → r' ≡ record r { possible_duplicate_of_id = some p; duplicate_score = some score }
      → RowStep r r'
  -- the analyst confirms or refuses the queued merge
  confirm :
      (p : ℕ)
      → r.status ≡ ReportStatus.pending_merge_review
      → r.possible_duplicate_of_id ≡ some p
      → r' ≡ record r {
        status = ReportStatus.duplicate;
        duplicate_of_id = some p;
        possible_duplicate_of_id = none;
      }
      → RowStep r r'
  refuse :
      r.status ≡ ReportStatus.pending_merge_review
      → r' ≡ record r {
        status = ReportStatus.pending;
        possible_duplicate_of_id = none;
        duplicate_score = none;
      }
      → RowStep r r'
  -- the analyst asks for more information, or corrects the severity
  ask :
      (message : Option String) (now : ℕ)
      → r' ≡ record r {
        info_request_message = message;
        info_requested_at = some now;
        reporter_followup = none;
        info_responded_at = none;
      }
      → RowStep r r'
  -- the reporter answers
  answer :
      (body : Option String) (now : ℕ)
      → r' ≡ record r {
        reporter_followup = body;
        info_responded_at = some now;
        review_priority = raised_priority r.review_priority;
      }
      → RowStep r r'
  override :
      (s : ReportDamageSeverity)
      → r' ≡ record r { analyst_severity_override = some s }
      → RowStep r r'
  -- the image task writes what it found
  analyse :
      (status : PhotoStatus) (phash : Option (List ℕ)) (quality confidence : Option ℕ)
      (prediction : Option ReportDamageSeverity) (divergence : Option Bool)
      (priority : ReviewPriority)
      → r' ≡ record r {
        photo_status = status;
        photo_phash = phash;
        ai_quality_score = quality;
        ai_confidence = confidence;
        ai_severity_prediction = prediction;
        ai_divergence = divergence;
        review_priority = priority;
      }
      → RowStep r r'
  -- the reporter sends a photo
  attach :
      (url : String)
      → r' ≡ record r { photo_url = some url; photo_status = PhotoStatus.processing }
      → RowStep r r'
  -- the map task places the report
  locate :
      (building : Option ℕ) (confidence : ℕ)
      → r' ≡ record r { building_id = building; footprint_match_confidence = some confidence }
      → RowStep r r'

pub data Steps (r : Report) : Report → Type 0 where
  here : Steps r r
  next : {s t : Report} → Steps r s → RowStep s t → Steps r t

pub Steps-trans : {r s t : Report} → Steps r s → Steps s t → Steps r t
Steps-trans p here = p
Steps-trans p (next q x) = next (Steps-trans p q) x

-- A missing row stays missing, and a row that is there goes some steps.
abbrev pub RowEvolves : Option Report → Option Report → Type 0
RowEvolves none o = o ≡ none
RowEvolves (some r) o = (r' : Report) × (o ≡ some r') × Steps r r'

abbrev pub Evolves : Table Report → Table Report → Type 0
Evolves t t' = (k : ℕ) → RowEvolves (find k t) (find k t')

RowEvolves-refl : (o : Option Report) → RowEvolves o o
RowEvolves-refl none = refl
RowEvolves-refl (some r) = (r, refl, here)

RowEvolves-trans : (o p q : Option Report) → RowEvolves o p → RowEvolves p q → RowEvolves o q
RowEvolves-trans none p q e g = rw e at g
RowEvolves-trans (some r) p q (s, e, x) g =
    let (t, f, y) : RowEvolves (some s) q = (rw e at g) in (t, f, Steps-trans x y)

pub Evolves-refl : (t : Table Report) → Evolves t t
Evolves-refl t k = RowEvolves-refl (find k t)

pub Evolves-trans : (t u v : Table Report) → Evolves t u → Evolves u v → Evolves t v
Evolves-trans t u v f g k = RowEvolves-trans (find k t) (find k u) (find k v) (f k) (g k)

pub put-Evolves :
    (k : ℕ) (r r' : Report) (t : Table Report)
    → find k t ≡ some r
    → RowStep r r'
    → Evolves t (put k r' t)
put-Evolves k r r' t found x j = elim (Bool-cases (j == k)) [
  | inl e ↦ rw (==→eq j k e, found, find-put_self k r' r t found) (r', refl, next here x)
  | inr e ↦ rw (find-put j k r' r t found, e) (RowEvolves-refl (find j t))
]
