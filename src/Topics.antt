-- ===== src/Topics.antt =====
-- broker/topics.go: the index of subscriptions and retained messages. Locks are left out.
pub mod Levels
pub mod Filters
pub mod Stores
pub mod Tree
pub mod Scan
pub mod Index
pub mod Messages
mod Runs
