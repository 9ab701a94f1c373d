-- ===== src/Store.antt =====
-- The in-memory stores of tm/tmstore/tmmemstore. A method that returns an error leaves its store
-- as it was; locks are not modelled, since every method holds its store's lock to the end.
pub mod Actions
pub mod Finalizations
pub mod Rounds
pub mod RoundVotes
pub mod Proposers
pub mod Validators
mod Examples
