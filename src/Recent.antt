-- ===== src/Recent.antt =====
-- components/RecentView: the list of recent objects and its query input.
pub mod List
pub mod Input
pub mod View
mod Tests
