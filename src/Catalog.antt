-- ===== src/Catalog.antt =====
-- The catalogue of 1C: onec_product_catalog.cpp and its header.
pub mod Normalize
pub mod Read
pub mod Pull
mod Tests
