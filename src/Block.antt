-- ===== src/Block.antt =====
-- The block stores of block/, each one a layer over the interface of h/egos/block_store.h.
pub mod Store
pub mod Ram
pub mod Map
pub mod Part
pub mod Raid0
pub mod Raid1
pub mod Cache
pub mod Clock
pub mod WtClock
pub mod Client
pub mod Stat
pub mod Check
pub mod Debug
pub mod Tree
pub mod Combine
mod Tests
