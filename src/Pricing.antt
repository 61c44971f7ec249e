-- ===== src/Pricing.antt =====
-- internal/pricing: what the tokens of a request cost, in millionths of a dollar.
pub mod Rational
pub mod Spec
pub mod Rates
pub mod Candidates
pub mod Cost
pub mod Decimal
pub mod Digits
pub mod Amounts
pub mod Listed
pub mod Refusals
pub mod Tiers
pub mod Stripping
mod Tests
