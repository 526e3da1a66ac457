-- ===== src/Domain.antt =====
-- src/domain: the pure rules of the game.
pub mod Errors
pub mod Calendar
pub mod Case
pub mod Archive
pub mod Incense
pub mod Liangzi
pub mod Vote
pub mod GlobalState
pub mod VoteBudget
pub mod LocalIncense
pub mod LocalEpithet
pub mod IncenseWeight
pub mod Presentation
