-- ===== src/Sync.antt =====
-- `SyncService` of sync_service.cpp with the checkpoint types and the store in memory: triggers, the
-- Ozon loop, the old 1C loop, progress messages and resuming.
pub mod State
pub mod Progress
pub mod Ozon
pub mod Run
pub mod Onec
pub mod Triggers
mod Tests
