-- ===== src/Lifecycle.antt =====
-- The life of a report row.
pub mod Step
pub mod Growth
pub mod Quiet
pub mod Calls
pub mod Merges
pub mod History
pub mod Invariant
pub mod Buildings
pub mod MergeReview
