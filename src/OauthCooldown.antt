-- ===== src/OauthCooldown.antt =====
-- internal/proxy/oauth_cooldown.go: how long an account that is signed in waits after a refusal.
pub mod Windows
pub mod Hints
pub mod Choice
pub mod Latest
pub mod Bounds
pub mod Zeros
mod Tests
