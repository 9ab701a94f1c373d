-- ===== src/TxBuffer.antt =====
-- The transaction buffer of a validator, gdriver/gtxbuf: its working state and what a rebase keeps.
pub mod WorkingState
pub mod Current
pub mod Sifts
pub mod Rebase
mod Examples
