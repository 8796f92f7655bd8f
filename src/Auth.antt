-- ===== src/Auth.antt =====
-- commons/auth/provider.tsx: the session of the user.
pub mod Session
pub mod Provider
pub mod Header
pub mod Refresh
mod Tests
