-- ===== src/Ai.antt =====
-- The AI classification task: app/workers/ai_tasks.py.
pub mod Priority
pub mod Task
