-- ===== src/Personal.antt =====
-- services/api/repositories/personal.py: what a user keeps, watches and writes.
pub mod Streaks
pub mod States
pub mod Events
pub mod Ratings
pub mod Collections
pub mod Import
