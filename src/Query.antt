-- ===== src/Query.antt =====
-- mwdb/web/src/components/RecentView/common/luceneLexer.ts: the query language of the search box.
pub mod Lexer
pub mod Annotate
pub mod Continues
pub mod Automaton
pub mod Last
mod Tests
