-- ===== src/Helpers.antt =====
-- commons/helpers/index.ts and commons/helpers/paginate.ts.
pub mod Index
pub mod Laws
mod Tests
