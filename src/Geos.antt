-- ===== src/Geos.antt =====
-- Sample programs for GEOS, in bin/cc65-snapshot-win32/samples/geos.
pub mod Protection
pub mod Vectors
pub mod Records
