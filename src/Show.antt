-- ===== src/Show.antt =====
-- components/ShowObject: the page of an object.
pub mod Reducer
pub mod Updates
pub mod Page
pub mod Identity
pub mod Karton
mod Tests
