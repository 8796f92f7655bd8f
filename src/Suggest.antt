-- ===== src/Suggest.antt =====
-- mwdb/web/src/components/RecentView/common/useQuerySuggestions.ts: completion of the search box.
pub mod Fields
pub mod Current
pub mod Fetch
pub mod Complete
pub mod Extends
pub mod Structure
pub mod Live
mod Tests
