-- ===== src/Failover/Classify.antt =====
-- internal/proxy/failover_classify.go: what the answer of an upstream server means for failover.
-- The decoders of Go's library are a parameter. The body and the message are lists of bytes.
pub mod Sanitize
pub mod RetryAfter
pub mod TooMany
pub mod Upstream
pub mod Verdicts
pub mod Details
mod Tests
