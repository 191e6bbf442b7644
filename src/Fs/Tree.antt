-- ===== src/Fs/Tree.antt =====
-- The tree of directories: the state of the file system above the blocks, and the searches and
-- changes of src/kernel/fs/fs_dir.c and the files that use it.
pub mod Search
pub mod Edit
pub mod Truncate
pub mod Tests
pub mod Open
pub mod Create
pub mod Main
use potatoes.Prelude.{
  ℕ, zero, suc, ◌+◌, ◌-◌, ◌*◌, Option, none, some, List, [], ◌∷◌, ◌++◌, ◌>>=◌, get_elem?, set, take,
  drop,
}
use potatoes.Prelude.Int.{pos}
use potatoes.Klib.Strings.{strcpy}
use potatoes.Fs.Inodes.{MInode, InodeTable}
use potatoes.Fs.Inodes.Bytes.{le_bytes, from_le}
use potatoes.Fs.Inodes.Disk.{InodeIo, read_minode, write_inode}
use potatoes.Fs.Files.{File}
use potatoes.Fs.Blocks.{Blocks}
use potatoes.Fs.Io.{fs_read}
use potatoes.Fs.Dir.{DirEntry}

-- The disk with its caches and bitmap, the inode table, whose first entry is `root`, the global file
-- table, and the two caches of directories.
pub record System : Type 0 where
  pub blocks : Blocks
  pub inodes : InodeTable
  pub gft : List File
  pub dir_cache : List DirEntry
  pub m_inode_cache : MInode

abbrev pub dir_entries_per_block : ℕ
dir_entries_per_block = 16

pub encode_entries : List DirEntry → List ℕ
encode_entries [] = []
encode_entries (e ∷ es) = le_bytes 4 e.inode ++ (e.name ++ encode_entries es)

pub decode_entries : ℕ → List ℕ → List DirEntry
decode_entries zero bytes = []
decode_entries (suc n) bytes =
    record { inode = from_le (take 4 bytes); name = take 28 (drop 4 bytes) }
    ∷ decode_entries n (drop 32 bytes)

-- `strdup`, where `block` is what `mallocn` gave; `some none` is NULL.
pub strdup : List ℕ → Option (List ℕ) → Option (Option (List ℕ))
strdup str none = some none
strdup str (some block) = strcpy block str >>= (λ copy. some (some copy))

pub get_root : System → Option MInode
get_root s = get_elem? s.inodes 0

abbrev pub set_root : System → MInode → System
set_root s inode = record s { inodes = set s.inodes 0 inode }

abbrev pub with_io : System → InodeIo → System
with_io s io = record s {
  blocks = record s.blocks {
    bm = record s.blocks.bm { dev = io.dev };
    d_inode_cache = io.d_inode_cache;
  };
}

pub load_inode : System → MInode → ℕ → Option (System × MInode)
load_inode s inode blk =
    read_minode (record { dev = s.blocks.bm.dev; d_inode_cache = s.blocks.d_inode_cache }) inode blk
    >>= (λ (io, mi). some (with_io s io, mi))

pub save_inode : System → MInode → Option System
save_inode s inode =
    write_inode (record { dev = s.blocks.bm.dev; d_inode_cache = s.blocks.d_inode_cache }) inode
    >>= (λ io. some (with_io s io))
