-- ===== src/Tests.antt =====
-- Concrete inputs for the theorems.
pub mod Queues
pub mod Memories
pub mod Processes
pub mod UserMemories
pub mod TerminalWrites
pub mod TerminalReads
pub mod Starts
pub mod UserPrograms
pub mod Waits
pub mod Loading
pub mod Forks
pub mod Breaks
