-- ===== src/Sync/Progress/Throttle.antt =====
-- Which progress messages are sent on.
