-- ===== src/Policy.antt =====
-- internal/policy: the policy document, its validation and its composition for a binding.
pub mod Types
pub mod Patterns
pub mod Ttl
pub mod Identity
pub mod CleanPath
pub mod Hcl
pub mod BindingValues
pub mod Lifecycle
pub mod Validate
pub mod Lifetimes
pub mod Compose
mod Tests
