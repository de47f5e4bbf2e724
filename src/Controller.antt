-- ===== src/Controller.antt =====
-- internal/controller: the operations of the controller on its store and on OpenBao, the requests of
-- the agents and of the operator keys.
pub mod Errors
pub mod World
pub mod Rules
pub mod Matching
pub mod Composing
pub mod Publishing
pub mod Changes
pub mod Roles
pub mod Published
pub mod Retiring
pub mod Renaming
pub mod Samples
mod Tests
