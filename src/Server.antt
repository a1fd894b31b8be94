-- ===== src/Server.antt =====
-- The servers for blocks and for files: the programs blocksvr.c and bfs.c of apps/ and the procedures
-- of lib/ by which processes call them.
pub mod Blocks
pub mod Files
mod Tests
