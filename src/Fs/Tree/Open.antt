-- ===== src/Fs/Tree/Open.antt =====
-- Opening and closing files, src/kernel/fs/fs_open_close.c. A file descriptor that is -1 stands for
-- NOT_EXISTENT and NOT_POSSIBLE alike.
pub mod Close
use potatoes.Prelude.{
  ℕ, Bool, true, false, not, ◌||◌, Option, none, some, List, [], ◌∷◌, ◌==◌, if◌then◌else◌, ◌>>=◌,
  get_elem?, set,
}
use potatoes.Prelude.Int.{ℤ, pos, eq_ℤ}
use potatoes.Klib.Strings.{strcmp}
use potatoes.Fs.Bmap.{not_found}
use potatoes.Fs.Inodes.{InodeTable, alloc_inode}
use potatoes.Fs.Files.{minus_one, get_file, name2desc, insert_file, free_file}
use potatoes.Fs.Dir.{slash}
use potatoes.Fs.Tree.{System, load_inode, save_inode}
use potatoes.Fs.Tree.Search.{search_file}

-- What `mallocn` gives to the copies of the path in `search_file` and in `insert_file`.
pub record PathMemory : Type 0 where
  pub copy : Option (List ℕ)
  pub name : Option (List ℕ)

-- `insert_file(inode, abs_path, inode->i_mode)` for the inode at `i` of the table.
pub register_file : System → List ℕ → Option (List ℕ) → ℕ → Option (System × ℤ)
register_file s abs_path name i = do
  inode ← get_elem? s.inodes i
  (gft, fd) ← insert_file s.gft (some i) abs_path inode.mode name
  some (record s { gft = gft }, fd)

-- `alloc_inode` has returned an entry, which is filled from the disk, or NULL.
pub open_inode : List ℕ → Option (List ℕ) → ℕ → System → InodeTable × Option ℕ → Option (System × ℤ)
unfolding register_file
open_inode abs_path name block s (inodes, none) = some (record s { inodes = inodes }, minus_one)
open_inode abs_path name block s (inodes, some i) = do
  inode ← get_elem? inodes i
  (s', mi) ← load_inode s inode block
  register_file (record s' { inodes = set inodes i mi }) abs_path name i

-- A path that no open file bears.
pub open_path : ℕ → System → List ℕ → PathMemory → Option (System × ℤ)
unfolding open_inode
open_path fuel s abs_path memory = search_file fuel s abs_path memory.copy >>= (λ (s', block).
    let opened = alloc_inode s'.inodes >>= open_inode abs_path memory.name block s' in
    if block == not_found then some (s', minus_one) else opened)

pub fs_open : ℕ → System → List ℕ → PathMemory → Option (System × ℤ)
unfolding register_file open_path
fs_open fuel s abs_path memory = strcmp abs_path (slash ∷ 0 ∷ []) >>= (λ d.
    let root = register_file s abs_path memory.name 0 in
    let other = name2desc s.gft abs_path >>= (λ fd.
      let new = open_path fuel s abs_path memory in
      if not (eq_ℤ fd minus_one) then some (s, fd) else new) in
    if eq_ℤ d (pos 0) then root else other)

-- `write_inode` of the inode at `p` of the table, and `free_file`.
pub release : System → ℤ → ℕ → Option (System × Bool)
unfolding save_inode
release s fd p = do
  inode ← get_elem? s.inodes p
  s' ← save_inode s inode
  (inodes, gft) ← free_file s'.inodes s'.gft fd
  some (record s' { inodes = inodes; gft = gft }, true)

-- `get_file` has returned.
pub close_file : System → ℤ → Option ℕ → Option (System × Bool)
unfolding release
close_file s fd none = some (s, false)
close_file s fd (some i) = get_elem? s.gft i >>= (λ f.
    let closed = f.inode >>= release s fd in
    if eq_ℤ f.desc minus_one then some (s, false) else closed)

pub fs_close : System → ℤ → Option (System × Bool)
unfolding close_file
fs_close s fd = close_file s fd (get_file s.gft fd)
