-- ===== src/Session.antt =====
-- What the broker keeps of a client's session: topic aliases and in-flight messages.
pub mod Aliases
pub mod Inflight
pub mod PacketIds
mod Runs
