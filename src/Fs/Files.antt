-- ===== src/Fs/Files.antt =====
-- The file descriptor tables of src/kernel/fs/fs_file_table.c: `gft`, which all processes share, and
-- the table of one process. A pointer to an entry is its index, and NULL is `none`; a use of NULL is
-- a fault, the outer `none`. Every `f_inode` points into the inode table.
pub mod Process
pub mod Global
pub mod Names
pub mod Tests
use potatoes.Prelude.{
  ℕ, zero, suc, ◌+◌, ◌-◌, ◌%◌, ◌^◌, Bool, true, false, not, Option, none, some, List, [], ◌∷◌, ◌==◌,
  ltb, if◌then◌else◌, ◌>>=◌, get_elem?, set,
}
use potatoes.Prelude.Int.{ℤ, pos, negsuc, eq_ℤ}
use potatoes.Klib.Strings.{strcmp, strcpy, strncpy}
use potatoes.Fs.Table.{first}
use potatoes.Fs.Inodes.{InodeTable, free_inode}
use potatoes.Fs.Bmap.{root_inode_block}

-- NIL_FILE, NIL_PROC_FILE, NOT_FOUND and NOT_POSSIBLE.
abbrev pub minus_one : ℤ
minus_one = negsuc 0

pub record File : Type 0 where
  pub desc : ℤ
  pub inode : Option ℕ
  pub name : Option (List ℕ)
  pub mode : ℕ
  pub count : ℕ

pub record ProcFile : Type 0 where
  pub desc : ℤ
  pub f_desc : ℤ
  pub position : ℕ

pub init_file_table : List File → List File
init_file_table [] = []
init_file_table (f ∷ gft) = record f { desc = minus_one } ∷ init_file_table gft

pub init_proc_file_table : List ProcFile → List ProcFile
init_proc_file_table [] = []
init_proc_file_table (pf ∷ pft) = record pf { desc = minus_one } ∷ init_proc_file_table pft

abbrev pub get_file : List File → ℤ → Option ℕ
get_file gft fd = first (λ f. eq_ℤ f.desc fd) gft

abbrev pub get_proc_file : List ProcFile → ℤ → Option ℕ
get_proc_file pft fd = first (λ pf. eq_ℤ pf.desc fd) pft

pub contains_file : List File → ℤ → Bool
contains_file gft fd = elim (get_file gft fd) [ none ↦ false | some i ↦ true ]

-- The entry at `i`, changed.
abbrev pub update_file : List File → ℕ → (File → File) → Option (List File)
update_file gft i f = get_elem? gft i >>= (λ x. some (set gft i (f x)))

abbrev pub update_proc_file : List ProcFile → ℕ → (ProcFile → ProcFile) → Option (List ProcFile)
update_proc_file pft i f = get_elem? pft i >>= (λ x. some (set pft i (f x)))

-- The search of `alloc_file` has returned the entry, or none.
abbrev pub take_file : List File → Option ℕ → Option (List File × Option ℕ)
take_file gft none = some (gft, none)
take_file gft (some i) =
    update_file gft i (λ f. record f { desc = pos i; count = 0 }) >>= (λ gft'. some (gft', some i))

abbrev pub alloc_file : List File → Option (List File × Option ℕ)
alloc_file gft = take_file gft (first (λ f. eq_ℤ f.desc minus_one) gft)

abbrev pub take_proc_file : List ProcFile → Option ℕ → Option (List ProcFile × Option ℕ)
take_proc_file pft none = some (pft, none)
take_proc_file pft (some i) =
    update_proc_file pft i (λ pf. record pf { desc = pos i }) >>= (λ pft'. some (pft', some i))

abbrev pub alloc_proc_file : List ProcFile → Option (List ProcFile × Option ℕ)
alloc_proc_file pft = take_proc_file pft (first (λ pf. eq_ℤ pf.desc minus_one) pft)

-- `f->f_count++` on a `uint16`, at the entry that `get_file` returned untested.
abbrev pub inc_count_at : List File → Option ℕ → Option (List File)
inc_count_at gft none = none
inc_count_at gft (some i) = update_file gft i (λ f. record f { count = (f.count + 1) % 2 ^ 16 })

pub inc_count : List File → ℤ → Option (List File)
inc_count gft fd = inc_count_at gft (get_file gft fd)

-- The end of `insert_proc_file`, where `get_file` returned `f`.
abbrev pub count_if_open : List File → ℤ → Option ℕ → Option (List File)
unfolding inc_count
count_if_open gft glo_fd none = some gft
count_if_open gft glo_fd (some f) = inc_count gft glo_fd

-- The part of `insert_proc_file` behind `alloc_proc_file`.
abbrev pub fill_proc_file :
    List File → ℤ → List ProcFile × Option ℕ → Option (List File × List ProcFile × ℤ)
fill_proc_file gft glo_fd (pft, none) = some (gft, pft, minus_one)
fill_proc_file gft glo_fd (pft, some i) = do
  pft' ← update_proc_file pft i (λ pf. record pf { f_desc = glo_fd; position = 0 })
  gft' ← count_if_open gft glo_fd (get_file gft glo_fd)
  fd ← get_elem? pft' i
  some (gft', pft', fd.desc)

pub insert_proc_file : List File → List ProcFile → ℤ → Option (List File × List ProcFile × ℤ)
insert_proc_file gft pft glo_fd = alloc_proc_file pft >>= fill_proc_file gft glo_fd

abbrev pub reset_proc_file : List ProcFile → Option ℕ → Option (List ProcFile)
reset_proc_file pft none = some pft
reset_proc_file pft (some i) =
    update_proc_file pft i (λ pf. record { desc = minus_one; f_desc = minus_one; position = 0 })

pub free_proc_file : List ProcFile → ℤ → Option (List ProcFile)
free_proc_file pft fd = reset_proc_file pft (get_proc_file pft fd)

-- `origin + offset` on `uint32`.
unfoldable pub seek_position : ℕ → ℤ → ℕ
seek_position origin (pos n) = (origin + n) % 2 ^ 32
seek_position origin (negsuc n) = (origin + (2 ^ 32 - n - 1)) % 2 ^ 32

abbrev pub seek_at : List ProcFile → Option ℕ → ℕ → Option (List ProcFile × ℕ)
seek_at pft none p = some (pft, 2 ^ 32 - 1)
seek_at pft (some i) p =
    update_proc_file pft i (λ pf. record pf { position = p }) >>= (λ pft'. some (pft', p))

pub lseek : List ProcFile → ℤ → ℤ → ℕ → Option (List ProcFile × ℕ)
unfolding seek_position
lseek pft fd offset origin = seek_at pft (get_proc_file pft fd) (seek_position origin offset)

-- `f_name != NULL && strcmp(name, f_name) == 0`.
abbrev pub same_name : List ℕ → Option (List ℕ) → Option Bool
same_name name none = some false
same_name name (some f_name) = strcmp name f_name >>= (λ d. some (eq_ℤ d (pos 0)))

pub name2desc : List File → List ℕ → Option ℤ
name2desc [] name = some minus_one
name2desc (f ∷ gft) name =
    let rest = name2desc gft name in
    same_name name f.name >>= (λ same. if same then some f.desc else rest)

-- The comparison with the number of each entry's inode, in use or not.
pub inode2desc : InodeTable → List File → ℤ → Option ℤ
inode2desc inodes [] i_num = some minus_one
inode2desc inodes (f ∷ gft) i_num =
    let rest = inode2desc inodes gft i_num in
    f.inode >>= (λ i. get_elem? inodes i >>= (λ x. if eq_ℤ i_num x.num then some f.desc else rest))

-- The part of `insert_file` behind `alloc_file`.
abbrev pub fill_file : Option ℕ → List ℕ → ℕ → List File × Option ℕ → Option (List File × ℤ)
fill_file inode name mode (gft, none) = some (gft, minus_one)
fill_file inode name mode (gft, some i) = do
  gft' ← update_file gft i (λ f. record f { inode = inode; name = some name; mode = mode % 256 })
  fd ← get_elem? gft' i
  some (gft', fd.desc)

-- `block` is what `mallocn` gave to `strdup`; where that is NULL, `strcmp` faults.
pub insert_file : List File → Option ℕ → List ℕ → ℕ → Option (List ℕ) → Option (List File × ℤ)
insert_file gft inode name mode block = do
  b ← block
  copy ← strcpy b name
  old ← name2desc gft copy
  if eq_ℤ old minus_one then alloc_file gft >>= fill_file inode copy mode else some (gft, old)

-- The inode of a file that is given up.
abbrev pub drop_inode : InodeTable → Option ℕ → Option InodeTable
drop_inode inodes p = do
  i ← p
  x ← get_elem? inodes i
  if x.adr == root_inode_block then some inodes else free_inode inodes x.num

-- The part of `free_file` behind the count of references, which is `count` now.
abbrev pub drop_reference : InodeTable → List File → ℕ → File → ℕ → Option (InodeTable × List File)
drop_reference inodes gft i f count =
    if count == 0
    then (drop_inode inodes f.inode >>= (λ inodes'.
        some (inodes', set gft i (record f { desc = minus_one; name = none; count = 0 }))))
    else some (inodes, set gft i (record f { count = count }))

abbrev pub free_file_at : InodeTable → List File → Option ℕ → Option (InodeTable × List File)
free_file_at inodes gft none = some (inodes, gft)
free_file_at inodes gft (some i) =
    get_elem? gft i >>= (λ f. drop_reference inodes gft i f (f.count - 1))

pub free_file : InodeTable → List File → ℤ → Option (InodeTable × List File)
free_file inodes gft fd = free_file_at inodes gft (get_file gft fd)

-- `file_info`, whose time stamps are only copied.
pub record FileInfo : Type 0 where
  pub name : List ℕ
  pub mode : ℕ
  pub size : ℕ
  pub create_ts : ℕ
  pub modify_ts : ℕ
  pub num_links : ℕ

abbrev pub name_size : ℕ
name_size = 28

pub get_file_info : InodeTable → List File → ℤ → FileInfo → Option FileInfo
get_file_info inodes gft fd info = do
  i ← get_file gft fd
  f ← get_elem? gft i
  s ← f.name
  copy ← strncpy info.name s name_size
  p ← f.inode
  x ← get_elem? inodes p
  some (record {
    name = copy;
    mode = f.mode;
    size = x.size;
    create_ts = x.create_ts;
    modify_ts = x.modify_ts;
    num_links = f.count;
  })
