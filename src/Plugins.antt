-- ===== src/Plugins.antt =====
-- commons/plugins: what plugins add to the pages.
pub mod Loader
pub mod Order
mod Tests
