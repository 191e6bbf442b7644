-- ===== src/Fs/Super/Tests.antt =====
-- A super block on a disk of zeros.
use potatoes.Prelude.{ℕ, ◌≡◌, some, arith}
use potatoes.Fs.Device.{Device}
use potatoes.Fs.Device.Laws.{Written, padded}
use potatoes.Fs.Device.Tests.{disk, disk-IsDevice}
use potatoes.Fs.Super.{
  SuperBlock, super_size, super_block_nr, encode_super, load_super_block, write_super_block,
}
use potatoes.Fs.Super.Persist.{IsSuper, load_super_block-write_super_block}

abbrev a_super : ℕ → SuperBlock
a_super n = record {
  hd_size = n;
  bmap_blocks = 1;
  first_data_block = 4;
  max_file_size = 8469504;
  bmap = 4096;
  iroot = 8192;
  modify_ts = 7;
  read_only = 0;
  dirt = 0;
  magic_number = 280187;
}

a_super-IsSuper : IsSuper (a_super 64)
a_super-IsSuper = record {
  hd_size = omega arith;
  bmap_blocks = omega arith;
  first_data_block = omega arith;
  max_file_size = omega arith;
  bmap = omega arith;
  iroot = omega arith;
  modify_ts = omega arith;
  read_only = omega arith;
  dirt = omega arith;
  magic_number = omega arith;
}

load_super_block-write_super_block_example :
    (dev' : Device) × (dev'' : Device) × (write_super_block disk (a_super 64) ≡ some dev')
    × Written disk super_block_nr (padded (encode_super (a_super 64)) super_size) dev'
    × (load_super_block dev' (a_super 9) ≡ some (dev'', a_super 64))
load_super_block-write_super_block_example =
    load_super_block-write_super_block disk (a_super 64) (a_super 9) disk-IsDevice (omega arith)
      a_super-IsSuper
