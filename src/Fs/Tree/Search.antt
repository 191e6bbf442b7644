-- ===== src/Fs/Tree/Search.antt =====
-- The search for a path, `rfsearch` and `search_file` of src/kernel/fs/fs_dir.c. `fuel` bounds the
-- rounds of the loop and the calls of the function to itself.
pub mod Root
use potatoes.Prelude.{
  ℕ, zero, suc, ◌+◌, ◌%◌, ◌^◌, Bool, true, false, not, ◌&&◌, ◌||◌, Option, none, some, List, [],
  ◌∷◌, ◌==◌, if◌then◌else◌, ◌>>=◌,
}
use potatoes.Prelude.Int.{pos, eq_ℤ}
use potatoes.Klib.Strings.{strcmp, strsep}
use potatoes.Fs.Bmap.{not_found}
use potatoes.Fs.Inodes.{MInode}
use potatoes.Fs.Io.{fs_read}
use potatoes.Fs.Dir.{find_filename, slash}
use potatoes.Fs.Tree.{
  System, dir_entries_per_block, encode_entries, decode_entries, strdup, get_root, set_root,
  load_inode,
}

-- `fs_read(dir_cache, dir_inode, sizeof(dir_cache), pos, allow)`. The 512 bytes are those of one
-- block, so that `fs_read` does not call itself.
pub read_dir : System → MInode → ℕ → Bool → Option (System × MInode × ℕ)
read_dir s inode at allow =
    fs_read 1 s.blocks (encode_entries s.dir_cache) inode 512 at allow
    >>= (λ (blocks, inode', bytes, count). some (
      record s { blocks = blocks; dir_cache = decode_entries dir_entries_per_block bytes },
      inode',
      count,
    ))

-- Where the pointer `dir_inode` leads, to `root` or to `m_inode_cache`.
pub enter_dir : System → ℕ → Option (System × MInode × Bool)
unfolding get_root load_inode
enter_dir s crt_dir = get_root s >>= (λ root.
    if crt_dir == root.adr
    then some (s, root, true)
    else (load_inode s s.m_inode_cache crt_dir
        >>= (λ (s', mi). some (record s' { m_inode_cache = mi }, mi, false))))

abbrev pub leave_dir : System → MInode → Bool → System
leave_dir s inode is_root = if is_root then set_root s inode else record s { m_inode_cache = inode }

-- `find_filename(dir_cache, tok)`, where anything has been read.
pub find_read : System → Option (List ℕ) → ℕ → Option ℕ
find_read s none bytes_read = if bytes_read == 0 then some not_found else none
find_read s (some tok) bytes_read =
    if bytes_read == 0 then some not_found else find_filename s.dir_cache tok

-- The loop over the blocks of a directory.
pub search_dir : ℕ → System → MInode → ℕ → Option (List ℕ) → Option (System × MInode × ℕ)
unfolding read_dir find_read
search_dir zero s inode at tok = none
search_dir (suc fuel) s inode at tok = read_dir s inode at false >>= (λ (s', inode', bytes_read).
    find_read s' tok bytes_read >>= (λ file_blk.
      let rest = search_dir fuel s' inode' ((at + 512) % 2 ^ 32) tok in
      if file_blk == not_found && not (bytes_read == 0) then rest else some (s', inode', file_blk)))

-- What follows once the loop has ended; `rest` is the call of the function to itself.
pub next_token :
    (System → Option (List ℕ) → Option (List ℕ) → Option (System × ℕ))
    → System
    → Option (List ℕ)
    → ℕ
    → Option (System × ℕ)
next_token rest s path file_blk =
    if file_blk == not_found
    then some (s, not_found)
    else (strsep path slash >>= (λ (tok, path'). elim tok [
      | none ↦ some (s, file_blk)
      | some t ↦ rest s path' (some t)
    ]))

pub rfsearch : ℕ → System → ℕ → Option (List ℕ) → Option (List ℕ) → Option (System × ℕ)
unfolding enter_dir search_dir next_token
rfsearch zero s crt_dir path tok = none
rfsearch (suc fuel) s crt_dir path tok = do
  (s1, inode, is_root) ← enter_dir s crt_dir
  (s2, inode', file_blk) ← search_dir fuel s1 inode 0 tok
  next_token (λ s3 path' tok'. rfsearch fuel s3 file_blk path' tok') (leave_dir s2 inode' is_root)
      path file_blk

-- The first token of the path must be empty.
pub search_from : ℕ → System → Option (List ℕ) × Option (List ℕ) → Option (System × ℕ)
search_from fuel s (none, work_copy) = none
search_from fuel s (some tok, work_copy) = strcmp tok (0 ∷ []) >>= (λ d.
    let rest = get_root s >>= (λ root.
      strsep work_copy slash >>= (λ (tok', path). rfsearch fuel s root.adr path tok')) in
    if not (eq_ℤ d (pos 0)) then some (s, not_found) else rest)

-- `block` is what `mallocn` gave to `strdup`. Of the arguments of `rfsearch` the last ones are
-- evaluated first, as compilers for this processor do; the language leaves it open.
pub search_file : ℕ → System → List ℕ → Option (List ℕ) → Option (System × ℕ)
unfolding search_from
search_file fuel s path block =
    strdup path block >>= (λ copy. strsep copy slash >>= search_from fuel s)
