-- ===== src/Imap.antt =====
-- crates/imap and crates/core/src/imap: the synchronization of the archive with an IMAP server, and
-- the tasks that run it for each account.
pub mod Holders
pub mod Watches
pub mod Driven
pub mod Handles
pub mod Io
pub mod Sync
pub mod Port
pub mod Remote
pub mod Adapter
pub mod Tasks
pub mod Leaks
pub mod Interleaved
pub mod Held
pub mod Service
pub mod Start
pub mod Shutdown
pub mod Reconcile
pub mod Converge
mod Tests
