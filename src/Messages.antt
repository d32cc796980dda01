-- ===== src/Messages.antt =====
-- crates/core/src/message and its adapters in crates/database: the archived messages, their
-- attachments and where they lie on the server.
pub mod Model
pub mod Locations
pub mod Store
pub mod Attachments
pub mod Upsert
pub mod Record
pub mod Dedup
pub mod Again
pub mod Order
pub mod Listing
pub mod Access
mod Tests
mod RecordTests
