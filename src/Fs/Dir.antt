-- ===== src/Fs/Dir.antt =====
-- The entries in one block of a directory, and the parts of a path, in src/kernel/fs/fs_dir.c.
pub mod Paths
pub mod Slots
pub mod Entries
pub mod Refines
mod Tests
use potatoes.Prelude.{
  ℕ, zero, suc, ◌+◌, ◌-◌, ◌*◌, Bool, not, Option, none, some, List, [], ◌∷◌, ◌==◌, if◌then◌else◌,
  ◌>>=◌, get_elem?, set, drop,
}
use potatoes.Prelude.Int.{pos, eq_ℤ}
use potatoes.Klib.Memory.{bzero, memcpy}
use potatoes.Klib.Strings.{strlen, strcmp}
use potatoes.Fs.Bmap.{Bmap, not_found, mark_block}
use potatoes.Fs.Files.{name_size}

pub record DirEntry : Type 0 where
  pub inode : ℕ
  pub name : List ℕ

-- sizeof (dir_entry).
abbrev pub dir_entry_size : ℕ
dir_entry_size = 32

-- The loop that all functions on a block of entries share: the first entry that bears the name.
pub find_entry : List DirEntry → List ℕ → Option (Option ℕ)
find_entry [] name = some none
find_entry (e ∷ file_list) name =
    let rest = find_entry file_list name >>= (λ p. some (p >>= (λ i. some (suc i)))) in
    strcmp e.name name >>= (λ d. if eq_ℤ d (pos 0) then some (some 0) else rest)

pub inode_at : List DirEntry → Option ℕ → Option ℕ
inode_at file_list none = some not_found
inode_at file_list (some i) = get_elem? file_list i >>= (λ e. some e.inode)

pub find_filename : List DirEntry → List ℕ → Option ℕ
unfolding find_entry inode_at
find_filename file_list name = find_entry file_list name >>= inode_at file_list

pub contains_filename : List DirEntry → List ℕ → Option Bool
contains_filename file_list name =
    find_filename file_list name >>= (λ blk. some (not (blk == not_found)))

pub fill_entry : List DirEntry → ℕ → List ℕ → Option ℕ → Option (List DirEntry × ℕ)
fill_entry file_list blk_nr name none = some (file_list, not_found)
fill_entry file_list blk_nr name (some i) = do
  e ← get_elem? file_list i
  copy ← memcpy e.name name name_size
  some (set file_list i (record { inode = blk_nr; name = copy }), i * dir_entry_size)

pub create_entry : List DirEntry → ℕ → List ℕ → Option (List DirEntry × ℕ)
unfolding find_entry fill_entry
create_entry file_list blk_nr name =
    find_entry file_list (0 ∷ []) >>= fill_entry file_list blk_nr name

pub clear_entry : Bmap → List DirEntry → Option ℕ → Option (Bmap × List DirEntry × ℕ)
clear_entry bm file_list none = some (bm, file_list, not_found)
clear_entry bm file_list (some i) = do
  e ← get_elem? file_list i
  z ← bzero e.name name_size
  bm' ← mark_block bm e.inode Bool.false
  some (bm', set file_list i (record { inode = 0; name = z }), i * dir_entry_size)

pub delete_entry : Bmap → List DirEntry → List ℕ → Option (Bmap × List DirEntry × ℕ)
unfolding find_entry clear_entry
delete_entry bm file_list name = find_entry file_list name >>= clear_entry bm file_list

abbrev pub slash : ℕ
slash = 47

-- `while (abs_path[--i] != delim);` from `i` on. Below the start of the path it is a fault.
pub last_delim : List ℕ → ℕ → Option ℕ
last_delim abs_path zero = none
last_delim abs_path (suc i) =
    let rest = last_delim abs_path i in
    get_elem? abs_path i >>= (λ c. if c == slash then some i else rest)

-- `block` is what `mallocn` gave; `some none` is NULL.
pub get_filename : List ℕ → Option (List ℕ) → Option (Option (List ℕ))
unfolding last_delim
get_filename abs_path none = strlen abs_path >>= (λ n. some none)
get_filename abs_path (some block) = do
  n ← strlen abs_path
  z ← bzero block n
  i ← last_delim abs_path n
  path ← memcpy z (drop (suc i) abs_path) (n - i)
  some (some path)

pub get_path : List ℕ → Option (List ℕ) → Option (Option (List ℕ))
unfolding last_delim
get_path abs_path none = strlen abs_path >>= (λ n. some none)
get_path abs_path (some block) = do
  n ← strlen abs_path
  z ← bzero block n
  i ← last_delim abs_path n
  path ← memcpy z abs_path (if i == 0 then 1 else i)
  some (some path)
