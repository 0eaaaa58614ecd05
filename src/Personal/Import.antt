-- ===== src/Personal/Import.antt =====
-- services/api/repositories/personal.py, the import of a user's data.
pub mod Resolve
pub mod Apply
pub mod Rows
pub mod Steps
pub mod Covered
pub mod Still
pub mod Twice
