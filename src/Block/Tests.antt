-- ===== src/Block/Tests.antt =====
-- A partition whose transfers of sectors are empty.
use dunkos.Common.{◌≡◌, inl, arith}
use dunkos.Block.Defs.{World, Block, empty_ide, block_read, block_write}
use dunkos.Block.Transfer.{block_read-block_write}

abbrev partition : Block
partition = record { name = 0; start = 4; size = 100; remainder = 9000 }

abbrev world : World
world = record { memory = λ q. q; disk = λ x. 0 }

-- 600 bytes at 1000 are written to the sector 2, and 600 are read from the sector 7 to 3000: the byte
-- 550 of them.
block_read-block_write_example :
    let w = (block_write empty_ide partition 1000 2 600 world).1 in
    let (n, w') = block_read empty_ide partition 3000 7 600 w in
    (n ≡ 424) × (w'.disk ≡ world.disk) × (w'.memory 3550 ≡ 1550)
block_read-block_write_example =
    block_read-block_write partition 1000 3000 2 7 600 3550 world (omega arith) (inl (omega arith))
      (inl (omega arith)) (inl (omega arith))
