-- ===== src/Store/Inbox.antt =====
-- The inbox table: internal/store/device_messages.go and internal/store/inbox_worker.go.
pub mod Create
pub mod Process
