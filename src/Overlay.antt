-- ===== src/Overlay.antt =====
-- The versioned file system of hbf/db/overlay_fs.c over the schema of hbf/db/overlay_schema.sql.
pub mod Schema
pub mod Write
pub mod Read
pub mod History
pub mod Tables
pub mod Effects
pub mod Outcome
pub mod ReadBack
pub mod Total
pub mod Runs
pub mod Opening
