-- ===== src/Reload.antt =====
-- internal/proxy/proxy.go: what a proxy that is built anew keeps of the one that it replaces.
pub mod Settings
pub mod Inherit
pub mod Identity
pub mod Kept
pub mod Cursors
pub mod Health
mod Tests
