-- ===== src/Submission.antt =====
-- Report submission: app/services/submission_service.py.
pub mod Followup
pub mod Own
pub mod Nearby
pub mod Photo
pub mod Limit
pub mod Create
