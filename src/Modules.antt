-- ===== src/Modules.antt =====
-- broker/modules: the hooks that this broker adds to the server.
pub mod Config
pub mod PropertyValidator
pub mod AuthDefense
pub mod PriorityMessaging
pub mod MessageIntegrity
pub mod WildcardTokens
