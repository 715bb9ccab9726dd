-- ===== src/Kyc.antt =====
-- src/workflows/kyc: the reference workflow, which screens a client and assigns a tier.
pub mod Records
pub mod Sanctions
pub mod Eligibility
pub mod Onboarding
mod Tests
