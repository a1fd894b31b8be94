-- ===== src/Server/Files/Strangers.antt =====
-- What a user may do in `apps/bfs.c` who may not change a file.
use cs4411_p.Block.Store.{Store}
use cs4411_p.Server.Blocks.{Block}
