-- ===== src/Gis.antt =====
-- Buildings on the map: app/services/gis_service.py and app/workers/gis_tasks.py.
pub mod Match
pub mod Severity
pub mod Task
