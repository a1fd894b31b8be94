-- ===== src/System.antt =====
-- The system around the block stores.
pub mod Queue
pub mod Map
pub mod RamFile
pub mod Process
pub mod Tlb
mod Tests
