-- ===== src/Server.antt =====
-- The broker itself: broker/hooks.go, broker/server.go, and what broker/clients.go does for it.
pub mod Failures
pub mod Hooks
pub mod State
pub mod Writing
pub mod Acks
pub mod Delivery
pub mod Publishing
pub mod Subscribing
pub mod Wills
pub mod Handling
pub mod Sessions
pub mod Connecting
pub mod Attaching
pub mod Embedding
pub mod Storing
pub mod Loading
pub mod Quotas
mod Runs
