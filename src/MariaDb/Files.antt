-- ===== src/MariaDb/Files.antt =====
-- mariadb-adapter.js: what is read out of a migration file's text.
pub mod Sections
pub mod Annotations
mod Tests
