-- ===== src/Ka2.antt =====
-- The KA2 inventory reader, onec_ka2_inventory.cpp and its header.
pub mod Chunks
pub mod Guids
pub mod Encoding
pub mod Page
pub mod Paging
pub mod Balance
pub mod Workers
pub mod Rows
mod Tests
