-- ===== src/Auth.antt =====
-- apps/api/src/modules/auth: the limit on failed logins.
pub mod RateLimit
