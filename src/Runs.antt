-- ===== src/Runs.antt =====
-- The records of runs and the checkpoints of the inventory in the database:
-- sync_runs_repository.cpp and inventory_checkpoint_repository.cpp. A table is the list of its rows in
-- the order of their insertion, and the time of a statement is an argument.
pub mod Statements
pub mod SyncRuns
pub mod Checkpoints
mod Tests
