-- ===== src/Fs/Inodes.antt =====
-- The inode table, src/kernel/fs/fs_inode_table.c, with the inodes of fs_types.h. A pointer into the
-- table is an index; NULL is `none` where the code tests for it, and else a fault.
pub mod Copy
pub mod Alloc
pub mod Bytes
pub mod Disk
mod Tests
use potatoes.Prelude.{
  ℕ, zero, suc, Bool, Option, none, some, List, [], ◌∷◌, if◌then◌else◌, ◌>>=◌, ◌%◌, get_elem?, set,
  replicate,
}
use potatoes.Prelude.Int.{ℤ, pos, negsuc, eq_ℤ}
use potatoes.Fs.Table.{first}

abbrev pub num_inodes : ℕ
num_inodes = 10

abbrev pub num_direct_pointer : ℕ
num_direct_pointer = 30

abbrev pub nil_inode : ℤ
nil_inode = negsuc 0

-- The time stamps are only copied, so that a stamp is any number.
pub record DInode : Type 0 where
  pub mode : ℕ
  pub size : ℕ
  pub create_ts : ℕ
  pub modify_ts : ℕ
  pub direct_pointer : List ℕ
  pub single_indirect_pointer : ℕ
  pub double_indirect_pointer : ℕ

pub record MInode : Type 0 where
  pub num : ℤ
  pub adr : ℕ
  pub mode : ℕ
  pub size : ℕ
  pub create_ts : ℕ
  pub modify_ts : ℕ
  pub direct_pointer : List ℕ
  pub single_indirect_pointer : ℕ
  pub double_indirect_pointer : ℕ

abbrev pub InodeTable : Type 0
InodeTable = List MInode

pub init_inode_table : InodeTable → InodeTable
init_inode_table [] = []
init_inode_table (i ∷ t) = record i { num = nil_inode } ∷ init_inode_table t

pub get_inode : InodeTable → ℤ → Option ℕ
get_inode t i_num = first (λ i. eq_ℤ i.num i_num) t

-- The loop over the direct pointers: `n` of them from the source over those of the destination.
pub copy_pointers : ℕ → List ℕ → List ℕ → Option (List ℕ)
copy_pointers zero dest src = some dest
copy_pointers (suc n) [] src = none
copy_pointers (suc n) (d ∷ dest) [] = none
copy_pointers (suc n) (d ∷ dest) (s ∷ src) = copy_pointers n dest src >>= (λ r. some (s ∷ r))

pub cpy_minode_to_dinode : DInode → MInode → Option DInode
cpy_minode_to_dinode di mi =
    copy_pointers num_direct_pointer di.direct_pointer mi.direct_pointer >>= (λ ps. some (record {
      mode = mi.mode;
      size = mi.size;
      create_ts = mi.create_ts;
      modify_ts = mi.modify_ts;
      direct_pointer = ps;
      single_indirect_pointer = mi.single_indirect_pointer;
      double_indirect_pointer = mi.double_indirect_pointer;
    }))

pub cpy_dinode_to_minode : MInode → DInode → Option MInode
cpy_dinode_to_minode mi di =
    copy_pointers num_direct_pointer mi.direct_pointer di.direct_pointer >>= (λ ps.
      some (record mi {
        mode = di.mode;
        size = di.size;
        create_ts = di.create_ts;
        modify_ts = di.modify_ts;
        direct_pointer = ps;
        single_indirect_pointer = di.single_indirect_pointer;
        double_indirect_pointer = di.double_indirect_pointer;
      }))

-- The entry at `i` of the table, changed.
abbrev pub update : InodeTable → ℕ → (MInode → MInode) → Option InodeTable
update t i f = get_elem? t i >>= (λ x. some (set t i (f x)))

-- The search of `alloc_inode` has returned the entry, or none.
unfoldable pub take_inode : InodeTable → Option ℕ → Option (InodeTable × Option ℕ)
take_inode t none = some (t, none)
take_inode t (some i) = update t i (λ x. record x { num = pos i }) >>= (λ t'. some (t', some i))

pub alloc_inode : InodeTable → Option (InodeTable × Option ℕ)
alloc_inode t = take_inode t (first (λ i. eq_ℤ i.num nil_inode) t)

-- `get_inode` is used untested.
pub free_inode : InodeTable → ℤ → Option InodeTable
unfolding get_inode
free_inode t i_num = get_inode t i_num >>= (λ i. update t i (λ x. record x { num = nil_inode }))

-- The fields that `new_minode` sets, `i_mode` a `uint16`; the direct pointers are 30 stores of NULL.
pub blank : MInode → ℕ → ℕ → ℕ → MInode
blank mi adr mode time = record mi {
  adr = adr;
  mode = mode % 65536;
  size = 0;
  create_ts = time;
  modify_ts = time;
  direct_pointer = replicate num_direct_pointer 0;
  single_indirect_pointer = 0;
  double_indirect_pointer = 0;
}

-- `new_minode(adr, mode, FALSE)`: `block` is what `mallocn` returned, NULL or an inode with
-- whatever it holds; of it, `bzero(mi, sizeof(mi))` clears the four bytes of a pointer, which are
-- set afterwards.
pub new_minode_own : Option MInode → ℕ → ℕ → ℕ → Option MInode
unfolding blank
new_minode_own block adr mode time =
    block >>= (λ mi. some (blank (record mi { num = nil_inode }) adr mode time))

-- `new_minode(adr, mode, TRUE)`; the result of `alloc_inode` is used untested.
pub new_minode_in_table : InodeTable → ℕ → ℕ → ℕ → Option (InodeTable × ℕ)
unfolding alloc_inode blank
new_minode_in_table t adr mode time = do
  (t', p) ← alloc_inode t
  i ← p
  t'' ← update t' i (λ x. blank x adr mode time)
  some (t'', i)
