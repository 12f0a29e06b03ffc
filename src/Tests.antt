-- ===== src/Tests.antt =====
-- Concrete inputs: the theorems applied where their hypotheses hold.
mod Bytewise
mod Pages
mod Locks
pub mod NodeLocks
mod Writer
mod Pool
mod Iterator
mod Tree
mod Split
mod Walk
mod Scan
mod Queue
