-- ===== src/Fs/Tree/Edit.antt =====
-- Names that come into a directory and go from it, `insert_file_into_dir` and `delete_file_from_dir`
-- of src/kernel/fs/fs_dir.c. `fuel` bounds the rounds of the loops over the blocks of the directory.
use potatoes.Prelude.{
  ℕ, zero, suc, ◌+◌, ◌%◌, ◌^◌, Bool, true, false, Option, none, some, List, ◌==◌, ltb,
  if◌then◌else◌, ◌>>=◌,
}
use potatoes.Fs.Device.{block_size, wrt_block, clear_block}
use potatoes.Fs.Bmap.{Bmap, not_found, root_inode_block, alloc_block, mark_block}
use potatoes.Fs.Inodes.{MInode}
use potatoes.Fs.Blocks.{get_data_block}
use potatoes.Fs.Dir.{contains_filename, create_entry, delete_entry}
use potatoes.Fs.Tree.{System, encode_entries, get_root, set_root, load_inode, save_inode}
use potatoes.Fs.Tree.Search.{read_dir}

abbrev pub directory : ℕ
directory = 2

abbrev pub with_bm : System → Bmap → System
with_bm s bm = record s { blocks = record s.blocks { bm = bm } }

-- The inode of the directory, and whether it is `root`. An inode that is none of a directory is
-- `none` within the result. `block` is the memory that `mallocn` gave, which is used untested.
pub dir_inode : System → ℕ → MInode → Option (System × Option (MInode × Bool))
unfolding get_root load_inode
dir_inode s dir_inode_blk block =
    if dir_inode_blk == root_inode_block
    then (get_root s >>= (λ root. some (s, some (root, true))))
    else (load_inode s block dir_inode_blk
        >>= (λ (s', mi). some (s', if mi.mode == directory then some (mi, false) else none)))

abbrev pub keep_inode : System → MInode → Bool → System
keep_inode s inode is_root = if is_root then set_root s inode else s

-- A block of the directory at position `at` is in `dir_cache`: its number, or none where the code
-- returns.
pub dir_block : System → MInode → ℕ → Bool → Option (System × MInode × Option ℕ)
dir_block s inode at allow = get_data_block s.blocks inode at allow >>= (λ (blocks, inode1, blk).
    let read =
      read_dir (record s { blocks = blocks }) inode1 at allow
      >>= (λ (s2, inode2, count). some (s2, inode2, if count == 0 then none else some blk)) in
    if blk == not_found then some (record s { blocks = blocks }, inode1, none) else read)

-- The end of `insert_file_into_dir`: the size and time of the directory, its inode, the block of
-- entries and the new block.
pub finish_insert : System → MInode → ℕ → ℕ → ℕ → ℕ → Option (System × MInode)
unfolding save_inode encode_entries
finish_insert s inode at dir_entry_blk new_blk time = do
  let end : ℕ = (at + 512) % 2 ^ 32
  let inode' : MInode = record inode {
    size = if ltb end inode.size then inode.size else end;
    modify_ts = time;
  }
  s1 ← save_inode s inode'
  dev2 ← wrt_block s1.blocks.bm.dev dir_entry_blk (encode_entries s1.dir_cache) block_size
  dev3 ← clear_block dev2 new_blk
  some (with_bm s1 (record s1.blocks.bm { dev = dev3 }), inode')

-- A block for the new inode is allocated and its entry made. Where the block of entries is full,
-- the allocation is undone and `next` is the loop from the next block on.
pub insert_entry :
    (System → MInode → Option (System × MInode × ℕ))
    → System
    → MInode
    → ℕ
    → ℕ
    → List ℕ
    → ℕ
    → Option (System × MInode × ℕ)
unfolding finish_insert
insert_entry next s inode at dir_entry_blk name time = do
  (bm1, new_blk) ← alloc_block s.blocks.bm dir_entry_blk
  (entries, insert_pos) ← create_entry s.dir_cache new_blk name
  let s1 : System = record (with_bm s bm1) { dir_cache = entries }
  let undone : Option (System × MInode × ℕ) =
      mark_block bm1 new_blk false >>= (λ bm2. next (with_bm s1 bm2) inode)
  let done : Option (System × MInode × ℕ) =
      finish_insert s1 inode at dir_entry_blk new_blk time
      >>= (λ (s2, inode2). some (s2, inode2, new_blk))
  if insert_pos == not_found then undone else done

-- A block of entries has been read, or not.
pub insert_into :
    (System → MInode → Option (System × MInode × ℕ))
    → ℕ
    → List ℕ
    → ℕ
    → System × MInode × Option ℕ
    → Option (System × MInode × ℕ)
unfolding insert_entry
insert_into next at name time (s, inode, none) = some (s, inode, not_found)
insert_into next at name time (s, inode, some dir_entry_blk) =
    contains_filename s.dir_cache name >>= (λ existent.
      let insert = insert_entry next s inode at dir_entry_blk name time in
      if existent then some (s, inode, not_found) else insert)

pub insert_from : ℕ → ℕ → List ℕ → ℕ → System → MInode → Option (System × MInode × ℕ)
unfolding dir_block insert_into
insert_from zero at name time s inode = none
insert_from (suc fuel) at name time s inode =
    dir_block s inode at true
    >>= insert_into (insert_from fuel ((at + 512) % 2 ^ 32) name time) at name time

pub insert_in : ℕ → List ℕ → ℕ → System × Option (MInode × Bool) → Option (System × ℕ)
unfolding insert_from
insert_in fuel name time (s, none) = some (s, not_found)
insert_in fuel name time (s, some (inode, is_root)) =
    insert_from fuel 0 name time s inode
    >>= (λ (s', inode', new_blk). some (keep_inode s' inode' is_root, new_blk))

pub insert_file_into_dir : ℕ → System → ℕ → List ℕ → MInode → ℕ → Option (System × ℕ)
unfolding dir_inode insert_in
insert_file_into_dir fuel s dir_inode_blk name block time =
    dir_inode s dir_inode_blk block >>= insert_in fuel name time

-- The end of `delete_file_from_dir`.
pub finish_delete : System → MInode → ℕ → ℕ → Option (System × MInode)
unfolding save_inode encode_entries
finish_delete s inode dir_entry_blk time = do
  dev ← wrt_block s.blocks.bm.dev dir_entry_blk (encode_entries s.dir_cache) block_size
  let inode' : MInode = record inode { modify_ts = time }
  s' ← save_inode (with_bm s (record s.blocks.bm { dev = dev })) inode'
  some (s', inode')

-- The entry goes, where the block has it, or `next` is the loop from the next block on.
pub delete_from :
    (System → MInode → Option (System × MInode × ℕ))
    → List ℕ
    → ℕ
    → System × MInode × Option ℕ
    → Option (System × MInode × ℕ)
unfolding finish_delete
delete_from next name time (s, inode, none) = some (s, inode, not_found)
delete_from next name time (s, inode, some dir_entry_blk) =
    contains_filename s.dir_cache name >>= (λ existent.
      let skip = next s inode in
      let delete = delete_entry s.blocks.bm s.dir_cache name >>= (λ (bm, entries, delete_pos).
        let s1 = record (with_bm s bm) { dir_cache = entries } in
        let again = next s1 inode in
        let done =
          finish_delete s1 inode dir_entry_blk time
          >>= (λ (s2, inode2). some (s2, inode2, delete_pos)) in
        if delete_pos == not_found then again else done) in
      if existent then delete else skip)

pub delete_loop : ℕ → ℕ → List ℕ → ℕ → System → MInode → Option (System × MInode × ℕ)
unfolding dir_block delete_from
delete_loop zero at name time s inode = none
delete_loop (suc fuel) at name time s inode =
    dir_block s inode at false
    >>= delete_from (delete_loop fuel ((at + 512) % 2 ^ 32) name time) name time

pub delete_in : ℕ → List ℕ → ℕ → System × Option (MInode × Bool) → Option (System × ℕ)
unfolding delete_loop
delete_in fuel name time (s, none) = some (s, not_found)
delete_in fuel name time (s, some (inode, is_root)) =
    delete_loop fuel 0 name time s inode
    >>= (λ (s', inode', delete_pos). some (keep_inode s' inode' is_root, delete_pos))

-- It returns the position of the entry in its block.
pub delete_file_from_dir : ℕ → System → ℕ → List ℕ → MInode → ℕ → Option (System × ℕ)
unfolding dir_inode delete_in
delete_file_from_dir fuel s dir_inode_blk name block time =
    dir_inode s dir_inode_blk block >>= delete_in fuel name time
