-- ===== src/Backend.antt =====
-- src/backend: the community authority.
pub mod Rows
pub mod Store
pub mod VoteReplay
pub mod Vote
pub mod VoteRateLimit
pub mod AdmissionRateLimit
pub mod IdentityRateLimit
pub mod VotePath
pub mod Admission
pub mod Archives
pub mod TokenClaim
mod Fixtures
