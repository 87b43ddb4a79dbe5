-- ===== src/Submission/Photo/Rows.antt =====
-- What a photo that is sent later does to the report.
use matata_backend.Common.{
  ℕ, String, ◌≡◌, refl, true, some, ◌same_as◌, Option-cases, Bool-cases, Result-cases, inl, inr, ok,
  arith,
}
use matata_backend.Common.Table.{find, put}
use matata_backend.Models.{PhotoStatus, Report, Database}
use matata_backend.Analyst.Monad.{Error, moderation_rejected}
use matata_backend.Lifecycle.Step.{attach}
use matata_backend.Lifecycle.Quiet.{IsQuiet, IsQuiet-refl, same-IsQuiet, changed-IsQuiet}
use matata_backend.Submission.Photo.{
  Image, PhotoServices, upload, check_photo, add_photo_to_report, photo_request,
}

module _ (hash_token : String → String) (services : PhotoServices) where
  abbrev attached : String → Report → Report
  attached url r = record r { photo_url = some url; photo_status = PhotoStatus.processing }

  check_passes :
      (operation token : String) (k : ℕ) (image : Image) (db : Database)
      → (services.moderate image).passed ≡ true
      → check_photo hash_token services operation token k image db ≡ (ok tt, db)
  unfolding check_photo
  check_passes operation token k image db m = ground arith

  upload_passes :
      (k : ℕ) (image : Image) (url : String) (db : Database)
      → services.upload_image k (services.compress image) ≡ some url
      → upload services k image db ≡ (ok url, db)
  unfolding upload
  upload_passes k image url db u = ground arith

  stored :
      (k : ℕ) (image : Image) (token url : String) (r : Report) (db : Database)
      → find k db.reports ≡ some r
      → (r.reporter_token_hash same_as hash_token token) ≡ true
      → (services.moderate image).passed ≡ true
      → services.upload_image k (services.compress image) ≡ some url
      → let db' = (add_photo_to_report hash_token services k image token db).1 in
        (db'.reports ≡ put k (attached url r) db.reports) × (db'.buildings ≡ db.buildings)
  unfolding add_photo_to_report
  stored k image token url r db e s m u =
      let c = check_passes "report.photo_moderation_rejection" token k image db m in
      let w = upload_passes k image url db u in (ground (arith, c, w), ground (arith, c, w))

  add_photo-IsQuiet :
      (k : ℕ) (image : Image) (token : String) (db : Database)
      → IsQuiet db (add_photo_to_report hash_token services k image token db).1
  unfolding add_photo_to_report check_photo upload
  add_photo-IsQuiet k image token db =
      let db' = (add_photo_to_report hash_token services k image token db).1 in
      elim (Option-cases (find k db.reports)) [
        | inl e ↦ same-IsQuiet db db' (ground arith) (ground arith)
        | inr (r, e) ↦ elim (Bool-cases (r.reporter_token_hash same_as hash_token token)) [
          | inr s ↦ same-IsQuiet db db' (ground arith) (ground arith)
          | inl s ↦ elim (Bool-cases (services.moderate image).passed) [
            | inr m ↦ same-IsQuiet db db' (ground arith) (ground arith)
            | inl m ↦ elim (Option-cases (services.upload_image k (services.compress image))) [
              | inl u ↦ same-IsQuiet db db' (ground arith) (ground arith)
              | inr (url, u) ↦
                  let (er, eb) = stored k image token url r db e s m u in
                  changed-IsQuiet k r (attached url r) db db' e (attach url refl) (refl, refl, refl)
                    er eb
            ]
          ]
        ]
      ]

  -- The route commits a photo or the audit row of its rejection, and writes no other row.
  pub photo_request-IsQuiet :
      (k : ℕ) (image : Image) (token : String) (db : Database)
      → IsQuiet db (photo_request (add_photo_to_report hash_token services k image token) db).1
  unfolding photo_request
  photo_request-IsQuiet k image token db =
      let quiet = add_photo-IsQuiet k image token db in
      elim (Result-cases (add_photo_to_report hash_token services k image token db).0) [
        | inl (r, e) ↦ rw (photo_request, e) quiet
        | inr (x, e) ↦ rw (photo_request, e) (kept x _ quiet)
      ]
    where
      kept :
          (x : Error) (db' : Database)
          → IsQuiet db db'
          → IsQuiet db (elim x [ moderation_rejected ↦ db' | _ ↦ db ])
      kept moderation_rejected db' h = h
      kept _ db' h = IsQuiet-refl db
