-- ===== src/Worker.antt =====
-- internal/worker: the workers that move messages between the tables and the broker.
pub mod Outbox
pub mod Inbox
pub mod Email
