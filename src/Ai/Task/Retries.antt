-- ===== src/Ai/Task/Retries.antt =====
-- How the AI task ends, with its retries: app/workers/ai_tasks.py.
use matata_backend.Common.{
  ℕ, ◌≡◌, ◌∙◌, ◌⊎◌, ◌≤◌, ◌<◌, ◌+◌, refl, Bool, true, false, Option, none, some, List, [], ◌∷◌, ltb,
  is_some, truthy, Option-cases, Bool-cases, inl, inr, arith,
}
use matata_backend.Common.Lists.{length, All}
use matata_backend.Common.Table.{find, find-put_self}
use matata_backend.Models.{Report, Database}
use matata_backend.Celery.{RetryOutcome, IsCelery}
use matata_backend.Ai.Priority.{Thresholds}
use matata_backend.Ai.Task.{
  QualityFlag, ImageAnalysis, Answers, AiResult, Ran, write_analysis, analyse_photo, save_row,
  hashed, process_report_image_impl, max_retries, countdown, Ended, finished, retried, failed,
  handle_failure, process_report_image, run_task,
}

abbrev pub is_retried : Ended → Bool
is_retried (retried seconds) = true
is_retried _ = false

module _ (thresholds : Thresholds) (divergence_threshold : ℕ) where
  write_analysis_told :
      (k : ℕ) (r : Report) (phash : Option (List ℕ)) (a : ImageAnalysis) (flag : QualityFlag)
      (db : Database)
      → let ran = write_analysis thresholds divergence_threshold k r phash a flag db in
        (ran.signalled ≡ true) × ((x : AiResult) × (ran.result ≡ some x))
  unfolding write_analysis
  write_analysis_told k r phash a QualityFlag.usable db = (refl, (_, refl))
  write_analysis_told k r phash a QualityFlag.borderline db = (refl, (_, refl))
  write_analysis_told k r phash a QualityFlag.unusable db = (refl, (_, refl))

  -- An attempt that returns has told the gate, and one that raises has not.
  abbrev Told : Ran → Type 0
  Told ran = is_some ran.result ≡ ran.signalled

  analyse-Told :
      (k : ℕ) (r : Report) (answers : Answers) (db : Database)
      → Told (analyse_photo thresholds divergence_threshold k r answers db)
  unfolding analyse_photo
  analyse-Told k r answers db = elim (Option-cases answers.photo_phash) [
    | inl e ↦ rw (e) refl
    | inr (h, e) ↦ elim (Option-cases answers.analysis) [
      | inl f ↦ rw (e, f) refl
      | inr (a, f) ↦
          ground (arith, write_analysis_told k r h a a.quality_flag (save_row k (hashed h r) db))
    ]
  ]

  impl-Told :
      (k : ℕ) (answers : Answers) (db : Database)
      → Told (process_report_image_impl thresholds divergence_threshold k answers db)
  unfolding process_report_image_impl
  impl-Told k answers db = elim (Option-cases (find k db.reports)) [
    | inl e ↦ rw (process_report_image_impl, e) refl
    | inr (r, e) ↦ elim (Bool-cases (truthy r.photo_url)) [
      | inl t ↦ rw (process_report_image_impl, e, t) (analyse-Told k r answers db)
      | inr t ↦ rw (process_report_image_impl, e, t) refl
    ]
  ]

-- The report of a task whose attempts all raise keeps its queue entry.
abbrev pub KeptAside : Report → Option Report → Type 0
KeptAside r o =
    (s : Report) × (o ≡ some s)
    × (s.photo_url ≡ r.photo_url)
    × (s.photo_status ≡ r.photo_status)
    × (s.review_priority ≡ r.review_priority)

hashed_keeps : (h : Option (List ℕ)) (r : Report) → KeptAside r (some (hashed h r))
hashed_keeps none r = (r, refl, refl, refl, refl)
hashed_keeps (some h) r = (hashed (some h) r, refl, refl, refl, refl)

raising_impl :
    (thresholds : Thresholds) (divergence_threshold k : ℕ) (r : Report) (x : Answers)
    (db : Database)
    → find k db.reports ≡ some r
    → truthy r.photo_url ≡ true
    → x.analysis ≡ none
    → let ran = process_report_image_impl thresholds divergence_threshold k x db in
      (ran.result ≡ none) × KeptAside r (find k ran.database.reports)
unfolding process_report_image_impl analyse_photo
raising_impl thresholds divergence_threshold k r x db found photo raises =
    elim (Option-cases x.photo_phash) [
      | inl e ↦ rw (process_report_image_impl, found, photo, e) (refl, (r, found, refl, refl, refl))
      | inr (h, e) ↦
          rw (process_report_image_impl, found, photo, e, raises)
            (refl, rw (find-put_self k (hashed h r) r db.reports found) (hashed_keeps h r))
    ]

-- How often a task that ends so has told the gate.
abbrev pub gate_calls : Ended → ℕ
gate_calls (finished result) = 1
gate_calls (retried seconds) = 0
gate_calls failed = 0

module _ (retry : ℕ → ℕ → Bool → RetryOutcome) (celery : IsCelery retry) (thresholds : Thresholds)
    (divergence_threshold : ℕ) where
  -- Every attempt, before and at the last retry, by whether it raised.
  attempt_cases :
      (k retries : ℕ) (x : Answers) (db : Database)
      → let ran = process_report_image_impl thresholds divergence_threshold k x db in
        let attempt = process_report_image retry thresholds divergence_threshold k retries x db in
        ((result : AiResult) × (ran.result ≡ some result)
          × (attempt ≡ (finished result, 1, ran.database)))
        ⊎ (ran.result ≡ none)
          × ((ltb retries max_retries ≡ true)
                × (attempt ≡ (retried (countdown retries), 0, ran.database))
              ⊎ (ltb retries max_retries ≡ false) × (attempt ≡ (failed, 0, ran.database)))
  unfolding process_report_image handle_failure
  attempt_cases k retries x db =
      let ran = process_report_image_impl thresholds divergence_threshold k x db in
      let told = impl-Told thresholds divergence_threshold k x db in
      elim (Option-cases ran.result) [
        | inr (result, e) ↦ inl (result, e, ground (arith, e, told))
        | inl e ↦ elim (Bool-cases (ltb retries max_retries)) [
          | inl lt ↦
              inr (e, inl (lt, ground (arith, e, told, celery.below retries max_retries true lt)))
          | inr ge ↦
              inr (e, inr (ge, ground (arith, e, told, celery.exceeded retries max_retries ge)))
        ]
      ]

  run_cases :
      (k retries : ℕ) (x : Answers) (more : List Answers) (db : Database)
      → let ran = process_report_image_impl thresholds divergence_threshold k x db in
        let task = run_task retry thresholds divergence_threshold k retries (x ∷ more) db in
        ((result : AiResult) × (ran.result ≡ some result)
          × (task ≡ (finished result, 1, ran.database)))
        ⊎ (ran.result ≡ none)
          × ((ltb retries max_retries ≡ true)
                × (task
                    ≡ run_task retry thresholds divergence_threshold k
                        (retries + 1)
                        more
                        ran.database)
              ⊎ (ltb retries max_retries ≡ false) × (task ≡ (failed, 0, ran.database)))
  unfolding run_task
  run_cases k retries x more db = elim (attempt_cases k retries x db) [
    | inl (result, some', e) ↦ inl (result, some', ground (arith, e))
    | inr (n, inl (below, e)) ↦ inr (n, inl (below, ground (arith, e)))
    | inr (n, inr (ge, e)) ↦ inr (n, inr (ge, ground (arith, e)))
  ]

  -- A task that is given an answer for each of its attempts ends: it is not put off any more.
  run_task-ends :
      (k retries : ℕ) (answers : List Answers) (db : Database)
      → retries ≤ max_retries
      → max_retries < retries + length answers
      → is_retried (run_task retry thresholds divergence_threshold k retries answers db).0 ≡ false
  run_task-ends k retries [] db le lt = absurd (omega arith)
  run_task-ends k retries (x ∷ answers) db le lt = elim (run_cases k retries x answers db) [
    | inl (result, some', e) ↦ rw (e) refl
    | inr (n, inr (ge, e)) ↦ rw (e) refl
    | inr (n, inl (below, e)) ↦
        rw (e) (run_task-ends k (retries + 1) answers _ (ground arith) (omega arith))
  ]

  -- A task that finishes has told the gate once, and one that fails has never told it.
  pub run_task-told :
      (k retries : ℕ) (answers : List Answers) (db : Database)
      → let task = run_task retry thresholds divergence_threshold k retries answers db in
        task.1 ≡ gate_calls task.0
  unfolding run_task
  run_task-told k retries [] db = refl
  run_task-told k retries (x ∷ answers) db = elim (run_cases k retries x answers db) [
    | inl (result, some', e) ↦ rw (e) refl
    | inr (n, inr (ge, e)) ↦ rw (e) refl
    | inr (n, inl (below, e)) ↦ rw (e) (run_task-told k (retries + 1) answers _)
  ]

  -- If the provider fails in every attempt for the photo of a report, and the retries end as Celery
  -- documents, the task fails: the gate is never told, and the report keeps the photo status and the
  -- place in the queue that it had.
  pub run_task-lost :
      (k retries : ℕ) (r : Report) (answers : List Answers) (db : Database)
      → find k db.reports ≡ some r
      → truthy r.photo_url ≡ true
      → All (λ x. x.analysis ≡ none) answers
      → retries ≤ max_retries
      → max_retries < retries + length answers
      → let (ended, told, db') =
          run_task retry thresholds divergence_threshold k retries answers db in
        (ended ≡ failed) × (told ≡ 0) × KeptAside r (find k db'.reports)
  run_task-lost k retries r [] db found photo raise le lt = absurd (omega arith)
  run_task-lost k retries r (x ∷ answers) db found photo (now, later) le lt =
      let (none', (s, e', url, status, priority)) =
        raising_impl thresholds divergence_threshold k r x db found photo now in
      let ran = process_report_image_impl thresholds divergence_threshold k x db in
      elim (run_cases k retries x answers db) [
        | inl (result, some', e) ↦ absurd (ground (arith, none', some'))
        | inr (n, inr (ge, e)) ↦ rw (e) (refl, refl, (s, e', url, status, priority))
        | inr (n, inl (below, e)) ↦
            let (end, told, (t, found', url', status', priority')) =
              run_task-lost k (retries + 1) s answers ran.database e' (rw url photo) later
                (ground arith) (omega arith) in
            rw (e) (end, told, (t, found', url' ∙ url, status' ∙ status, priority' ∙ priority))
      ]
