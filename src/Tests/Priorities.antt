-- ===== src/Tests/Priorities.antt =====
-- The queue with the default thresholds of app/core/config.py.
