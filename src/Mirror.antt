-- ===== src/Mirror.antt =====
-- The mirror: its view of the network, tm/tmengine/internal/tmmirror/internal/tmi.
pub mod Outgoing
pub mod Gossip
pub mod StateMachineView
pub mod Lag
pub mod KState
pub mod Lookup
pub mod Rounds
pub mod Informed
pub mod Commit
pub mod Kernel
pub mod Fixtures
mod Examples
mod ViewExamples
mod ReplayExamples
