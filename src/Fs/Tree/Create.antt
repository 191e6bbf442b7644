-- ===== src/Fs/Tree/Create.antt =====
-- Creating and deleting files, `fs_create`, `fs_delete` and `fs_create_delete` of
-- src/kernel/fs/fs_create_delete.c. The time is the same in all calls.
use potatoes.Prelude.{
  ℕ, Bool, true, false, not, Option, none, some, List, [], ◌∷◌, ◌==◌, if◌then◌else◌, ◌>>=◌,
}
use potatoes.Prelude.Int.{pos, eq_ℤ}
use potatoes.Klib.Strings.{strcmp}
use potatoes.Fs.Bmap.{not_found, root_inode_block}
use potatoes.Fs.Inodes.{MInode, new_minode_own}
use potatoes.Fs.Dir.{slash, get_path, get_filename}
use potatoes.Fs.Tree.{System, save_inode}
use potatoes.Fs.Tree.Search.{search_file}
use potatoes.Fs.Tree.Edit.{insert_file_into_dir, delete_file_from_dir}
use potatoes.Fs.Tree.Open.{PathMemory}
use potatoes.Fs.Tree.Truncate.{fs_truncate}

-- What `mallocn` gives: to the copies in the two searches, the path, the name, the inode of the
-- directory and the new inode; and in `fs_truncate`.
pub record CreateMemory : Type 0 where
  pub copy : Option (List ℕ)
  pub path : Option (List ℕ)
  pub path_copy : Option (List ℕ)
  pub file_name : Option (List ℕ)
  pub dir_inode : MInode
  pub new_inode : Option MInode
  pub truncated : PathMemory

-- CREATE, with the type of the file, and DELETE.
pub data Mode : Type 0 where
  create : ℕ → Mode
  delete : Mode

-- Whether the first two tests let the call through, `found` the result of `search_file`.
pub may_proceed : Mode → ℕ → Bool
may_proceed (create data_type) found = found == not_found
may_proceed delete found = not (found == not_found)

-- The new inode is written, unless `mallocn` gave NULL.
pub save_new : System → Option MInode → Option (System × Bool)
unfolding save_inode
save_new s none = some (s, false)
save_new s (some inode) = save_inode s inode >>= (λ s'. some (s', true))

-- The name stands in the directory, or it was NOT_POSSIBLE.
pub write_new : Option MInode → ℕ → ℕ → System × ℕ → Option (System × Bool)
unfolding save_new
write_new block data_type time (s, file_block) =
    let written = save_new s (new_minode_own block file_block data_type time) in
    if file_block == not_found then some (s, false) else written

-- The change of the directory, whose inode is in block `dir_blk`.
pub change_dir : ℕ → System → List ℕ → Mode → ℕ → List ℕ → ℕ → CreateMemory → Option (System × Bool)
unfolding write_new
change_dir fuel s abs_path (create data_type) dir_blk file_name time memory =
    insert_file_into_dir fuel s dir_blk file_name memory.dir_inode time
    >>= write_new memory.new_inode data_type time
change_dir fuel s abs_path delete dir_blk file_name time memory = do
  (s1, truncated) ← fs_truncate fuel s abs_path 0 memory.truncated
  (s2, file_block) ← delete_file_from_dir fuel s1 dir_blk file_name memory.dir_inode time
  some (s2, not (file_block == not_found))

-- `get_filename` has returned.
pub change_named :
    ℕ → System → List ℕ → Mode → ℕ → Option (List ℕ) → ℕ → CreateMemory → Option (System × Bool)
unfolding change_dir
change_named fuel s abs_path mode dir_blk none time memory = some (s, false)
change_named fuel s abs_path mode dir_blk (some file_name) time memory =
    change_dir fuel s abs_path mode dir_blk file_name time memory

-- The block of the directory's inode is known, or is NOT_FOUND.
pub change_in : ℕ → List ℕ → Mode → ℕ → CreateMemory → System × ℕ → Option (System × Bool)
unfolding change_named
change_in fuel abs_path mode time memory (s, dir_blk) =
    let change =
      get_filename abs_path memory.file_name
      >>= (λ file_name. change_named fuel s abs_path mode dir_blk file_name time memory) in
    if dir_blk == not_found then some (s, false) else change

-- `get_path` has returned.
pub change_at :
    ℕ → System → List ℕ → Mode → ℕ → CreateMemory → Option (List ℕ) → Option (System × Bool)
unfolding change_in
change_at fuel s abs_path mode time memory none = some (s, false)
change_at fuel s abs_path mode time memory (some path) = strcmp path (slash ∷ 0 ∷ []) >>= (λ d.
    let found = search_file fuel s path memory.path_copy in
    (if eq_ℤ d (pos 0) then some (s, root_inode_block) else found)
    >>= change_in fuel abs_path mode time memory)

pub fs_create_delete : ℕ → System → List ℕ → Mode → ℕ → CreateMemory → Option (System × Bool)
unfolding may_proceed change_at
fs_create_delete fuel s abs_path mode time memory =
    search_file fuel s abs_path memory.copy >>= (λ (s1, found).
      let change = get_path abs_path memory.path >>= change_at fuel s1 abs_path mode time memory in
      if may_proceed mode found then change else some (s1, false))

pub fs_create : ℕ → System → List ℕ → ℕ → ℕ → CreateMemory → Option (System × Bool)
unfolding fs_create_delete
fs_create fuel s abs_path data_type time memory =
    fs_create_delete fuel s abs_path (create data_type) time memory

pub fs_delete : ℕ → System → List ℕ → ℕ → CreateMemory → Option (System × Bool)
unfolding fs_create_delete
fs_delete fuel s abs_path time memory = fs_create_delete fuel s abs_path delete time memory
