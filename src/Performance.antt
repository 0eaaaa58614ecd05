-- ===== src/Performance.antt =====
-- services/api/performance.py: the measurements of the service, its cache and its query budget.
pub mod Histogram
pub mod CacheAside
pub mod SlowQuery
pub mod Budget
