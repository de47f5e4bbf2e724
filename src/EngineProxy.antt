-- ===== src/EngineProxy.antt =====
-- internal/engineproxy/policy.go: which requests of the agent reach the container engine.
pub mod Types
pub mod Patterns
pub mod Authorize
pub mod Granted
pub mod Permission
mod Tests
