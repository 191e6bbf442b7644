-- ===== src/Fs/Inodes/Disk.antt =====
-- Inodes on their way to the disk and back, in src/kernel/fs/fs_inode_table.c. A failed ASSERT, a
-- panic and a fault are `none`.
pub mod Persist
pub mod Tests
use potatoes.Prelude.{
  ℕ, ◌≡◌, Bool, true, false, List, [], ◌∷◌, Option, some, none, ◌>>=◌, if◌then◌else◌, get_elem?,
  set,
}
use potatoes.Prelude.Int.{ℤ, pos}
use potatoes.Klib.Memory.{bzero}
use potatoes.Fs.Device.{Device, rd_block, wrt_block}
use potatoes.Fs.Inodes.{
  DInode, MInode, InodeTable, cpy_minode_to_dinode, cpy_dinode_to_minode, new_minode_own,
}
use potatoes.Fs.Inodes.Bytes.{disk_inode_size, encode_dinode, decode_dinode}

-- The disk, and the bytes of `d_inode_cache`.
pub record InodeIo : Type 0 where
  pub dev : Device
  pub d_inode_cache : List ℕ

pub read_dinode : Device → List ℕ → ℕ → Option (Device × List ℕ)
read_dinode dev inode inode_blk = rd_block dev inode inode_blk disk_inode_size

pub read_minode : InodeIo → MInode → ℕ → Option (InodeIo × MInode)
read_minode s inode inode_blk = do
  z ← bzero s.d_inode_cache disk_inode_size
  (dev', bytes) ← read_dinode s.dev z inode_blk
  mi ← cpy_dinode_to_minode inode (decode_dinode bytes)
  some (record { dev = dev'; d_inode_cache = bytes }, record mi { adr = inode_blk })

pub write_inode : InodeIo → MInode → Option InodeIo
write_inode s inode = do
  di ← cpy_minode_to_dinode (decode_dinode s.d_inode_cache) inode
  let bytes = encode_dinode di
  dev' ← wrt_block s.dev inode.adr bytes disk_inode_size
  some (record { dev = dev'; d_inode_cache = bytes })

pub write_inodes : InodeIo → InodeTable → Option InodeIo
write_inodes s [] = some s
write_inodes s (i ∷ t) = write_inode s i >>= (λ s'. write_inodes s' t)

-- ROOT_INODE and the block and mode of the root.
abbrev root_inode : ℕ
root_inode = 0

abbrev root_block : ℕ
root_block = 2

abbrev directory : ℕ
directory = 2

-- `block` is what `mallocn` gave to `new_minode`.
pub create_root : InodeTable → Option MInode → ℕ → Option InodeTable
create_root t none time = some t
create_root t (some block) time = do
  new_root ← new_minode_own (some block) root_block directory time
  old ← get_elem? t root_inode
  some (set t root_inode (record new_root { num = pos root_inode }))

pub load_root : InodeIo → InodeTable → Option (InodeIo × InodeTable)
load_root s t = do
  old ← get_elem? t root_inode
  (s', mi) ← read_minode s old root_block
  some (s', set t root_inode (record mi { adr = root_block; num = pos root_inode }))

-- `root` is the entry ROOT_INODE; the memory that is asked for is only tested.
pub write_root : InodeIo → InodeTable → Bool → Option InodeIo
write_root s t allocated =
    if allocated then (get_elem? t root_inode >>= (λ root. write_inode s root)) else none
