-- ===== src/Ui.antt =====
-- commons/ui: elements with logic of their own.
pub mod Highlight
mod Tests
