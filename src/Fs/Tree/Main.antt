-- ===== src/Fs/Tree/Main.antt =====
-- Setting the file system up and shutting it down, and the calls that it offers to processes,
-- src/kernel/fs/fs_main.c.
pub mod Calls
use potatoes.Prelude.{
  ℕ, zero, suc, ◌+◌, ◌-◌, ◌*◌, ◌%◌, ◌^◌, Bool, true, false, not, Option, none, some, List, [], ◌∷◌,
  ◌==◌, ltb, if◌then◌else◌, ◌>>=◌, get_elem?, set,
}
use potatoes.Prelude.Int.{ℤ, pos, eq_ℤ}
use potatoes.Fs.Bmap.{not_found, init_bmap, load_bmap, write_bmap}
use potatoes.Fs.Super.{SuperBlock, init_super_block, load_super_block, write_super_block}
use potatoes.Fs.Inodes.{MInode, init_inode_table}
use potatoes.Fs.Inodes.Disk.{InodeIo, create_root, load_root, write_root}
use potatoes.Fs.Files.{
  File, ProcFile, FileInfo, minus_one, init_file_table, get_file, get_proc_file, get_file_info,
  free_proc_file, lseek,
}
use potatoes.Fs.Io.{fs_read, fs_write}
use potatoes.Fs.Tree.{System, dir_entries_per_block, with_io}
use potatoes.Fs.Tree.Search.{search_file}
use potatoes.Fs.Tree.Edit.{directory, with_bm}
use potatoes.Fs.Tree.Open.{PathMemory, fs_open, fs_close}
use potatoes.Fs.Tree.Create.{CreateMemory, fs_create, fs_delete}

-- The system with `super_block`.
pub record Mounted : Type 0 where
  pub system : System
  pub super_block : SuperBlock

abbrev pub magic_number : ℕ
magic_number = 280187

-- What `mallocn` gives to the bitmap and to the inode of the root, the addresses of the two, which
-- the super block records, and the time.
pub record SetupMemory : Type 0 where
  pub loaded_bmap : Option (List ℕ)
  pub new_bmap : Option (List ℕ)
  pub root : Option MInode
  pub bmap_address : ℕ
  pub root_address : ℕ
  pub time : ℕ

pub init_tables : System → System
init_tables s = record s { inodes = init_inode_table s.inodes; gft = init_file_table s.gft }

pub load_fs : Mounted → SetupMemory → Option (Mounted × Bool)
unfolding init_tables
load_fs m memory = do
  bm ← load_bmap m.system.blocks.bm memory.loaded_bmap
  let s1 : System = init_tables (with_bm m.system bm)
  (io, inodes) ←
      load_root (record { dev = s1.blocks.bm.dev; d_inode_cache = s1.blocks.d_inode_cache })
        s1.inodes
  let s2 : System = record (with_io s1 io) { inodes = inodes }
  (dev, super) ← load_super_block s2.blocks.bm.dev m.super_block
  some (
    record { system = with_bm s2 (record s2.blocks.bm { dev = dev }); super_block = super },
    super.magic_number == magic_number,
  )

pub create_fs : Mounted → SetupMemory → Option (Mounted × Bool)
unfolding init_tables
create_fs m memory = do
  bm ← init_bmap m.system.blocks.bm memory.new_bmap
  let s1 : System = init_tables (with_bm m.system bm)
  inodes ← create_root s1.inodes memory.root memory.time
  let super : SuperBlock =
      init_super_block bm.dev.hdsize bm.num_bmap_blocks bm.first_data_block memory.bmap_address
        memory.root_address memory.time
  dev ← write_super_block bm.dev super
  some (
    record {
      system = with_bm (record s1 { inodes = inodes }) (record bm { dev = dev });
      super_block = super;
    },
    true,
  )

-- `load_fs` has returned; a new file system that cannot be made is a panic.
pub init_unless : SetupMemory → Mounted × Bool → Option Mounted
unfolding create_fs
init_unless memory (m, true) = some m
init_unless memory (m, false) =
    create_fs m memory >>= (λ (m', created). if created then some m' else none)

pub fs_init : Mounted → SetupMemory → Option Mounted
unfolding load_fs init_unless
fs_init m memory = load_fs m memory >>= init_unless memory

-- The loop of `fs_shutdown` over the entries of `gft` from `i` on, with the rounds left.
pub close_from : ℕ → ℕ → System → Option System
close_from zero i s = some s
close_from (suc n) i s = do
  f ← get_elem? s.gft i
  (s', closed) ← fs_close s f.desc
  close_from n (suc i) s'

abbrev pub num_files : ℕ
num_files = 10

-- `allocated`: whether `mallocn` gave the memory that `write_root` asks for.
pub fs_shutdown : Mounted → Bool → Option Mounted
unfolding close_from
fs_shutdown m allocated = do
  io ←
      write_root
        (record { dev = m.system.blocks.bm.dev; d_inode_cache = m.system.blocks.d_inode_cache })
        m.system.inodes allocated
  s ← close_from num_files 0 (with_io m.system io)
  bm ← write_bmap s.blocks.bm
  dev ← write_super_block bm.dev m.super_block
  some (record m { system = with_bm s (record bm { dev = dev }) })

-- How many bytes `do_read` asks for, in a file of `size` bytes.
pub read_length : FileInfo → ℕ → ℕ → ℕ
read_length info count at =
    let left = (info.size + 2 ^ 32 - at) % 2 ^ 32 in
    if info.mode == directory
    then 32 * dir_entries_per_block
    else if ltb left count
    then left
    else count

-- `info` is the memory of the local variable.
pub do_read : System → ℤ → List ℕ → ℕ → ℕ → FileInfo → Option (System × List ℕ × ℕ)
unfolding read_length
do_read s fd buf count at info = do
  info' ← get_file_info s.inodes s.gft fd info
  let to_read : ℕ = read_length info' count at
  i ← get_file s.gft fd
  f ← get_elem? s.gft i
  p ← f.inode
  inode ← get_elem? s.inodes p
  (blocks, inode', buf', n) ← fs_read (suc to_read) s.blocks buf inode to_read at false
  some (record s { blocks = blocks; inodes = set s.inodes p inode' }, buf', n)

pub do_write : System → ℤ → List ℕ → ℕ → ℕ → ℕ → Option (System × ℕ)
do_write s fd buf count at time = do
  i ← get_file s.gft fd
  f ← get_elem? s.gft i
  p ← f.inode
  inode ← get_elem? s.inodes p
  (blocks, inode', n) ← fs_write (suc count) s.blocks inode buf count at true time
  some (record s { blocks = blocks; inodes = set s.inodes p inode' }, n)

-- `mode` is a `uint8`.
pub do_create : ℕ → System → List ℕ → ℕ → ℕ → CreateMemory → Option (System × Bool)
do_create fuel s abs_path mode time memory = fs_create fuel s abs_path (mode % 256) time memory

pub do_mkdir : ℕ → System → List ℕ → ℕ → CreateMemory → Option (System × Bool)
do_mkdir fuel s abs_path time memory = fs_create fuel s abs_path directory time memory

abbrev pub data_file : ℕ
data_file = 1

pub do_mkfile : ℕ → System → List ℕ → ℕ → CreateMemory → Option (System × Bool)
unfolding do_create
do_mkfile fuel s abs_path time memory = do_create fuel s abs_path data_file time memory

-- 0, or -1 where `b` is FALSE.
abbrev pub status : Bool → ℤ
status b = if b then pos 0 else minus_one

pub do_remove : ℕ → System → List ℕ → ℕ → CreateMemory → Option (System × ℤ)
do_remove fuel s abs_path time memory =
    fs_delete fuel s abs_path time memory >>= (λ (s', deleted). some (s', status deleted))

pub do_open : ℕ → System → List ℕ → PathMemory → Option (System × ℤ)
do_open fuel s abs_path memory = fs_open fuel s abs_path memory

pub do_close : System → ℤ → Option (System × ℤ)
do_close s fd = fs_close s fd >>= (λ (s', closed). some (s', status closed))

-- `get_proc_file` is used untested.
pub do_close_pf : System → List ProcFile → ℤ → Option (System × List ProcFile × ℤ)
unfolding do_close
do_close_pf s pft pfd = do
  i ← get_proc_file pft pfd
  pf ← get_elem? pft i
  (s', closed) ← do_close s pf.f_desc
  let freed : Option (System × List ProcFile × ℤ) =
      free_proc_file pft pfd >>= (λ pft'. some (s', pft', pos 0))
  if eq_ℤ closed (pos 0) then freed else some (s', pft, minus_one)

pub do_lseek : List ProcFile → ℤ → ℤ → ℕ → Option (List ProcFile × ℕ)
do_lseek pft fd offset origin = lseek pft fd offset origin

pub do_file_exists : ℕ → System → List ℕ → Option (List ℕ) → Option (System × Bool)
do_file_exists fuel s path copy =
    search_file fuel s path copy >>= (λ (s', found). some (s', not (found == not_found)))
