-- ===== src/Auth.antt =====
-- The service of accounts and sessions, apps/auth.
pub mod Session
pub mod LoginAttempts
