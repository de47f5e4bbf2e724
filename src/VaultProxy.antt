-- ===== src/VaultProxy.antt =====
-- internal/vaultproxy/proxy.go: the OpenBao API on a container's vault socket.
pub mod Types
pub mod Paths
pub mod Headers
pub mod Wrapped
pub mod Serve
pub mod Sends
pub mod Safety
pub mod Memory
mod Tests
