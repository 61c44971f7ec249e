-- ===== src/Sticky.antt =====
-- internal/proxy/sticky.go: a client stays with the provider that served it before.
pub mod Keys
pub mod State
pub mod Eviction
pub mod Expiry
pub mod Learning
mod Tests
