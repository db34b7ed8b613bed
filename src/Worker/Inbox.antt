-- ===== src/Worker/Inbox.antt =====
-- internal/worker/inbox/service.go: the worker that processes what the video cloud reports.
pub mod Transitions
pub mod Messages
pub mod Deliveries
pub mod Laws
pub mod Finished
pub mod Rounds
pub mod Loop
