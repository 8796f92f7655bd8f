-- ===== src/Navigation.antt =====
-- commons/navigation: which view a location leads to, and for whom.
pub mod Guards
pub mod Routes
pub mod Access
mod Tests
