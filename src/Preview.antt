-- ===== src/Preview.antt =====
-- commons/helpers/preview.ts: the views of the contents of an object.
pub mod Content
pub mod Hex
pub mod Runs
mod Tests
