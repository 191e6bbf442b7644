-- ===== src/Fs/Super.antt =====
-- The super block of src/kernel/fs/fs_super.c. `super` points to the one `super_block` from the
-- start of the set-up on, so that there is one value here; pointers in it are addresses. Its fields
-- are packed, little-endian, and a time stamp has 8 bytes, which are read as one number.
pub mod Persist
mod Tests
use potatoes.Prelude.{ℕ, ◌+◌, ◌*◌, ◌/◌, ◌%◌, ◌^◌, List, ◌++◌, Option, some, ◌>>=◌, take, drop}
use potatoes.Fs.Device.{Device, rd_block, wrt_block}
use potatoes.Fs.Inodes.{num_direct_pointer}
use potatoes.Fs.Inodes.Bytes.{le_bytes, from_le}

pub record SuperBlock : Type 0 where
  pub hd_size : ℕ
  pub bmap_blocks : ℕ
  pub first_data_block : ℕ
  pub max_file_size : ℕ
  pub bmap : ℕ
  pub iroot : ℕ
  pub modify_ts : ℕ
  pub read_only : ℕ
  pub dirt : ℕ
  pub magic_number : ℕ

abbrev pub super_size : ℕ
super_size = 37

abbrev pub super_block_nr : ℕ
super_block_nr = 1

-- BLOCK_SIZE * 8 / 32, the addresses in a block.
abbrev addrs : ℕ
addrs = 512 * 8 / 32

-- The arguments are the globals that the source reads, and what `get_hdsize` returns.
pub init_super_block : ℕ → ℕ → ℕ → ℕ → ℕ → ℕ → SuperBlock
init_super_block hdsize num_bmap_blocks first_data_block bmap root time = record {
  hd_size = hdsize;
  bmap_blocks = num_bmap_blocks % 2 ^ 16;
  first_data_block = first_data_block;
  max_file_size = (num_direct_pointer + addrs + addrs * addrs) * 512;
  bmap = bmap;
  iroot = root;
  modify_ts = time;
  read_only = 0;
  dirt = 0;
  magic_number = 280187;
}

pub encode_super : SuperBlock → List ℕ
encode_super s =
    le_bytes 4 s.hd_size
    ++ (le_bytes 2 s.bmap_blocks
        ++ (le_bytes 4 s.first_data_block
            ++ (le_bytes 4 s.max_file_size
                ++ (le_bytes 4 s.bmap
                    ++ (le_bytes 4 s.iroot
                        ++ (le_bytes 8 s.modify_ts
                            ++ (le_bytes 1 s.read_only
                                ++ (le_bytes 2 s.dirt ++ le_bytes 4 s.magic_number))))))))

pub decode_super : List ℕ → SuperBlock
decode_super bytes = record {
  hd_size = from_le (take 4 bytes);
  bmap_blocks = from_le (take 2 (drop 4 bytes));
  first_data_block = from_le (take 4 (drop 6 bytes));
  max_file_size = from_le (take 4 (drop 10 bytes));
  bmap = from_le (take 4 (drop 14 bytes));
  iroot = from_le (take 4 (drop 18 bytes));
  modify_ts = from_le (take 8 (drop 22 bytes));
  read_only = from_le (take 1 (drop 30 bytes));
  dirt = from_le (take 2 (drop 31 bytes));
  magic_number = from_le (take 4 (drop 33 bytes));
}

pub load_super_block : Device → SuperBlock → Option (Device × SuperBlock)
unfolding encode_super decode_super
load_super_block dev old =
    rd_block dev (encode_super old) super_block_nr super_size
    >>= (λ (dev', bytes). some (dev', decode_super bytes))

pub write_super_block : Device → SuperBlock → Option Device
unfolding encode_super
write_super_block dev s = wrt_block dev super_block_nr (encode_super s) super_size
