-- ===== src/Channel.antt =====
-- internal/channel/channel.go: the messages of the two cross-service streams.
pub mod Types
pub mod Routes
pub mod Text
pub mod Fields
pub mod Payloads
pub mod Envelopes
