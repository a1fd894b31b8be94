-- ===== src/Library.antt =====
-- The C library of the system, `lib`.
pub mod Fill
pub mod MemChan
pub mod Sort
mod Tests
