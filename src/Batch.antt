-- ===== src/Batch.antt =====
-- scanner/batch.py: one environment's runs on one machine.
pub mod Preserves
pub mod Ensures
pub mod World
pub mod Page
pub mod File
pub mod Run
