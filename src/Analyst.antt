-- ===== src/Analyst.antt =====
-- The analyst service: app/services/analyst_service.py.
pub mod Monad
pub mod Severity
pub mod Transition
pub mod Merge
pub mod Review
pub mod Sync
pub mod Listing
pub mod Stats
pub mod Accuracy
