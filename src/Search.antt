-- ===== src/Search.antt =====
-- mwdb/web/src/commons/helpers/search.ts: the queries that the program writes for the user.
pub mod Quote
pub mod Field
pub mod Tokens
pub mod Hashes
pub mod Toggle
mod Tests
