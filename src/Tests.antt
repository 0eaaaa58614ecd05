-- ===== src/Tests.antt =====
-- Tests, and the theorems at concrete inputs that meet their hypotheses.
mod JobRegistry
mod Sources
mod Merges
mod Access
mod Measurements
mod Payloads
mod Circles
mod Vaults
mod Gatherings
mod Imports
