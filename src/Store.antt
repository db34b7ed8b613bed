-- ===== src/Store.antt =====
-- internal/store: the tables behind the event channel and the transactions on them. A transaction
-- maps the tables to a result and new tables; one that fails is rolled back.
pub mod Accounts
pub mod Tables
pub mod Rows
pub mod Selection
pub mod Outbox
pub mod Claim
pub mod Requeue
pub mod Projection
pub mod Inbox
pub mod Email
pub mod Operations
pub mod Messages
