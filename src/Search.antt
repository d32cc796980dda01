-- ===== src/Search.antt =====
-- Search: the query language (crates/core/src/search), the service and the indexer (crates/search).
pub mod Backlog
pub mod Query
pub mod Scope
pub mod ScopeLaws
pub mod Compile
pub mod Service
pub mod Matches
pub mod Answers
pub mod Safety
pub mod Indexer
pub mod Documents
pub mod Drain
mod Tests
mod DrainTests
