-- ===== src/Tests.antt =====
-- Concrete databases and servers, runs of the modelled code on them, and for each result with
-- hypotheses an instance in which they hold.
mod Data
mod Decisions
mod Histories
mod Scoring
mod Priorities
mod Followups
mod SignIns
mod Pipeline
mod Dashboards
mod Submissions
