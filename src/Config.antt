-- ===== src/Config.antt =====
-- commons/config/provider.tsx: the configuration that the server gives.
pub mod Reducer
pub mod Updates
mod Tests
