-- ===== src/Operator.antt =====
-- operator and internal/controller/operator_session.go: the requests of the operator keys.
pub mod Grants
pub mod Messages
pub mod Requests
mod Tests
