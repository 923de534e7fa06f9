-- ===== src/Archive.antt =====
-- src/archive: the header of an archive.
pub mod Header
pub mod Tests
