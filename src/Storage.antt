-- ===== src/Storage.antt =====
-- storage/: the durable tables and the repository over them. A repository method is one transaction
-- on the `Database`; it takes the instant that the clock shows, which the source reads by
-- `utc_now()`, once for the whole transaction.
pub mod Tables
pub mod Inbox
pub mod Outbox
pub mod Tools
pub mod Drafts
pub mod Allowlist
pub mod RuntimeState
pub mod Recovery
pub mod History
