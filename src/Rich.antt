-- ===== src/Rich.antt =====
-- components/RichAttribute: templates of attribute values.
pub mod Split
pub mod Escape
pub mod Context
pub mod Query
pub mod Section
pub mod Lookup
pub mod Lambdas
mod Tests
