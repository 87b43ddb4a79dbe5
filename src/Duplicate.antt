-- ===== src/Duplicate.antt =====
-- Duplicate detection: app/services/duplicate_service.py and app/workers/duplicate_tasks.py.
pub mod Signals
pub mod Scorer
pub mod Candidates
pub mod Task
pub mod Dispatch
