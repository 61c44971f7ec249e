-- ===== src/Protocols.antt =====
-- internal/proxy/protocols.go: from the path of a request to what it asks for.
pub mod Paths
pub mod Canonical
pub mod Detect
pub mod Contexts
pub mod Names
pub mod Termination
pub mod Agreement
mod Tests
