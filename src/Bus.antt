-- ===== src/Bus.antt =====
-- internal/bus/channel.go: the message bus of a process that holds all modules.
pub mod Subject
pub mod Pubsub
pub mod Kv
mod Examples
