-- ===== src/Store.antt =====
-- internal/controller/store: the controller's SQLite state.
pub mod Tables
pub mod Agents
pub mod OperatorKeys
pub mod Sessions
pub mod Policies
pub mod Bindings
pub mod Reports
pub mod Membership
pub mod Assignments
pub mod Step
pub mod Frames
pub mod KeyLists
pub mod AgentNames
pub mod KeyLabels
pub mod KeyLife
pub mod KeyHistory
pub mod SessionLife
pub mod PolicyChange
pub mod Generations
mod Tests
mod BindingTests
mod SessionTests
