-- ===== src/Sync.antt =====
-- services/api/repositories/sync.py: the synchronisation of what a client did while it was offline.
pub mod Stores
pub mod Push
pub mod Known
pub mod Repeat
