-- ===== src/Consensus.antt =====
-- The consensus data and arithmetic of tm/tmconsensus.
pub mod Types
pub mod Math
pub mod Trust
pub mod VoteSummary
pub mod Tally
pub mod Summary
pub mod RoundView
pub mod Step
pub mod Feedback
mod Examples
