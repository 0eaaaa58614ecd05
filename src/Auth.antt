-- ===== src/Auth.antt =====
-- services/api/auth and services/api/rate_limiter.py: who may do what, and how often.
pub mod Rbac
pub mod Token
pub mod RateLimit
