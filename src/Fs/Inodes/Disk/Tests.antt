-- ===== src/Fs/Inodes/Disk/Tests.antt =====
-- An inode on a disk of a hundred blocks.
use potatoes.Prelude.{ℕ, ◌≡◌, refl, List, ◌∷◌, some, arith, length, length-replicate, replicate}
use potatoes.Prelude.Int.{pos}
use potatoes.Fs.Device.{block_size}
use potatoes.Fs.Device.Laws.{IsDevice, block_size-eq, padded, zeros, length-padded}
use potatoes.Fs.Inodes.{MInode}
use potatoes.Fs.Inodes.Bytes.{disk_inode_size, encode_dinode, IsDInode, length-encode_dinode}
use potatoes.Fs.Inodes.Disk.{InodeIo, read_minode}
use potatoes.Fs.Inodes.Disk.Persist.{content, read_minode-Stores}

abbrev pub inode : MInode
inode = record {
  num = pos 1;
  adr = 40;
  mode = 1;
  size = 700;
  create_ts = 11;
  modify_ts = 12;
  direct_pointer = 5 ∷ 6 ∷ replicate 28 0;
  single_indirect_pointer = 0;
  double_indirect_pointer = 0;
}

pub inode-IsDInode : IsDInode (content inode)
inode-IsDInode = record {
  mode = omega arith;
  size = omega arith;
  create_ts = omega arith;
  modify_ts = omega arith;
  pointers = refl;
  words = omega arith;
  single_indirect = omega arith;
  double_indirect = omega arith;
}

abbrev stored : List ℕ
stored = padded (encode_dinode (content inode)) disk_inode_size

length-stored : length stored ≡ block_size
length-stored =
    length-padded (encode_dinode (content inode)) disk_inode_size
      (omega (arith, length-encode_dinode inode-IsDInode)) (omega (arith, block_size-eq))

-- Every block of the disk stores the inode.
abbrev io : InodeIo
io = record {
  dev = record {
    hdsize = 100;
    sector = λ b. stored;
    read_cache = record { block_nr = 0; cache = zeros };
    write_cache = record { block_nr = 0; cache = zeros };
  };
  d_inode_cache = replicate disk_inode_size 0;
}

io-IsDevice : IsDevice io.dev
io-IsDevice = record {
  sectors = λ b. length-stored;
  read_size = length-replicate block_size 0;
  write_size = length-replicate block_size 0;
}

read_minode-Stores_example :
    (s' : InodeIo) × (read_minode io inode 7 ≡ some (s', record inode { num = pos 1; adr = 7 }))
    × (s'.d_inode_cache ≡ encode_dinode (content inode))
    × ((j : ℕ) → s'.dev.sector j ≡ io.dev.sector j)
read_minode-Stores_example =
    read_minode-Stores io inode inode 7 io-IsDevice (omega arith) refl refl inode-IsDInode refl
