-- ===== src/Examples.antt =====
-- The theorems at concrete inputs, one for each property.
pub mod Setup
pub mod Queue
pub mod Machine
pub mod Loop
pub mod Pop
pub mod Assembly
pub mod Interleaved
pub mod Tasks
pub mod Start
pub mod Pool
pub mod Rounds
pub mod Numbers
