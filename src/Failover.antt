-- ===== src/Failover.antt =====
-- internal/proxy/failover_state.go: the health of providers and keys, and the cursors of routing.
pub mod State
pub mod Availability
pub mod Ring
pub mod Cursors
pub mod Quarantine
pub mod Waiting
pub mod Busy
pub mod Permits
pub mod Forward
pub mod Classify
mod Tests
mod Scenarios
