-- ===== src/Submission/Photo.antt =====
-- A photo for a report: `add_photo_to_report` of app/services/submission_service.py, and the route
-- around it in app/api/v1/routes/reports.py, which commits the audit row of a rejected photo. What the
-- moderation and the object storage answer, and the compression, are arguments.
pub mod Rows
use matata_backend.Common.{
  String, ℕ, Bool, true, false, Option, none, some, List, [], ◌∷◌, Result, ok, err, ◌same_as◌,
  if◌then◌else◌,
}
use matata_backend.Models.{PhotoStatus, Report, Json, Database}
use matata_backend.Analyst.Monad.{
  Error, not_owner, moderation_rejected, upload_failed, Action, pure, raise, ◌>>=◌, ◌>>◌, require,
  find_report, save_report, write_audit_log,
}

-- The bytes of an image.
abbrev pub Image : Type 0
Image = List ℕ

pub record ModerationResult : Type 0 where
  pub passed : Bool
  pub categories : List String

-- The services around a photo: `upload_image` gives the object's key, or `none` if it raises.
pub record PhotoServices : Type 0 where
  pub moderate : Image → ModerationResult
  pub compress : Image → Image
  pub upload_image : ℕ → Image → Option String

-- The upload, and the error that is raised if it fails.
unfoldable pub upload : PhotoServices → ℕ → Image → Action String
upload services k image db = elim (services.upload_image k (services.compress image)) [
  | none ↦ (err upload_failed, db)
  | some url ↦ (ok url, db)
]

module _ (hash_token : String → String) (services : PhotoServices) where
  -- The moderation, which writes an audit row before it raises.
  unfoldable pub check_photo : String → String → ℕ → Image → Action (Unit {0})
  check_photo operation token k image = do
    if (services.moderate image).passed then pure tt else do
      write_audit_log operation (hash_token token) k none (
          ("reason", Json.text "moderation_rejection")
          ∷ ("categories", Json.texts (services.moderate image).categories)
          ∷ [])
      raise moderation_rejected

  unfoldable pub add_photo_to_report : ℕ → Image → String → Action Report
  add_photo_to_report k image token = do
    report ← find_report k
    require (report.reporter_token_hash same_as hash_token token) not_owner
    check_photo "report.photo_moderation_rejection" token k image
    url ← upload services k image
    let report' : Report = record report {
      photo_url = some url;
      photo_status = PhotoStatus.processing;
    }
    save_report k report'
    write_audit_log "report.photo_added" (hash_token token) k
        (some (("photo_url", Json.null) ∷ ("photo_status", Json.text "pending") ∷ []))
        (("photo_url", Json.text url) ∷ ("photo_status", Json.text "processing") ∷ [])
    pure report'

-- The route: a rejection of the photo commits what was written, and every other error rolls it back.
unfoldable pub photo_request : {A : Type 0} → Action A → Action A
photo_request m db =
    let (r, db') = m db in
    elim r [ ok a ↦ (ok a, db') | err e ↦ (err e, elim e [ moderation_rejected ↦ db' | _ ↦ db ]) ]
