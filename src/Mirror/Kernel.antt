-- ===== src/Mirror/Kernel.antt =====
-- The mirror kernel, tm/tmengine/internal/tmmirror/internal/tmi/kernel.go: its handlers.
pub mod World
pub mod Shift
pub mod Fetch
pub mod Votes
pub mod Headers
pub mod PhCheck
pub mod Entrance
pub mod Steps
pub mod Commits
pub mod Kept
pub mod Safety
pub mod VoteSafety
pub mod HeaderSafety
pub mod Answers
pub mod Conflicts
pub mod Returns
pub mod VoteReturns
pub mod Action
pub mod ActionSafety
pub mod Replay
pub mod ReplayMerges
pub mod ReplaySafety
pub mod Trace
