-- ===== src/Fs/Tree/Tests.antt =====
-- A file system of 64 blocks whose root directory, in block 5, has a file "a" with its inode in block
-- 41.
use potatoes.Prelude.{
  ℕ, zero, suc, ◌≡◌, refl, ◌==◌, if◌then◌else◌, List, [], ◌∷◌, some, arith, length-replicate,
  replicate,
}
use potatoes.Prelude.Int.{pos}
use potatoes.Klib.Strings.Text.{cstr}
use potatoes.Fs.Device.{Device}
use potatoes.Fs.Device.Laws.{IsDevice, block_size-eq}
use potatoes.Fs.Bmap.{Bmap}
use potatoes.Fs.Device.Tests.{disk, disk-IsDevice}
use potatoes.Fs.Bmap.Tests.{empty, empty-IsBmap}
use potatoes.Fs.Inodes.{MInode}
use potatoes.Fs.Inodes.Bytes.{IsDInode}
use potatoes.Fs.Inodes.Disk.Persist.{content}
use potatoes.Fs.Blocks.{Blocks}
use potatoes.Fs.Dir.{DirEntry, slash}
use potatoes.Fs.Dir.Slots.{Slots, same_text, lookup, Distinct}
use potatoes.Fs.Dir.Entries.{Represents}
use potatoes.Fs.Dir.Refines.{Names, Refines, block_or}
use potatoes.Fs.Tree.{System, get_root, encode_entries, decode_entries}
use potatoes.Fs.Tree.Search.{search_file}
use potatoes.Fs.Tree.Search.Root.{HasRoot, entries_at, search_file-Names}
use potatoes.Fs.Tree.Truncate.{resize}
use potatoes.Fs.Tree.Truncate.Shrink.{Freed, resize-Freed}

abbrev dir_bytes : List ℕ
dir_bytes = 41 ∷ 0 ∷ 0 ∷ 0 ∷ 97 ∷ replicate 507 0

abbrev dir_disk : Device
dir_disk = record disk { sector = λ j. if j == 5 then dir_bytes else disk.sector j }

dir_disk-IsDevice : IsDevice dir_disk
dir_disk-IsDevice = record {
  sectors = λ j.
      ground (arith, disk-IsDevice.sectors j, length-replicate {0} {A = ℕ} 507 0, block_size-eq);
  read_size = disk-IsDevice.read_size;
  write_size = disk-IsDevice.write_size;
}

abbrev root : MInode
root = record {
  num = pos 0;
  adr = 2;
  mode = 2;
  size = 512;
  create_ts = 11;
  modify_ts = 12;
  direct_pointer = 5 ∷ replicate 29 0;
  single_indirect_pointer = 0;
  double_indirect_pointer = 0;
}

root-IsDInode : IsDInode (content root)
root-IsDInode = record {
  mode = omega arith;
  size = omega arith;
  create_ts = omega arith;
  modify_ts = omega arith;
  pointers = refl;
  words = omega arith;
  single_indirect = omega arith;
  double_indirect = omega arith;
}

abbrev free_entry : DirEntry
free_entry = record { inode = 0; name = replicate 28 0 }

abbrev blocks : Blocks
blocks = record { bm = record empty { dev = dir_disk }; addr_cache = []; d_inode_cache = [] }

abbrev system : System
system = record {
  blocks = blocks;
  inodes = root ∷ [];
  gft = [];
  dir_cache = replicate 16 free_entry;
  m_inode_cache = root;
}

system-HasRoot : HasRoot system root 5
unfolding encode_entries get_root
system-HasRoot = record {
  first = refl;
  cache = refl;
  size = refl;
  block = refl;
  only = refl;
  is_set = omega arith;
  other = omega arith;
  inside = omega arith;
  small = omega arith;
  device = dir_disk-IsDevice;
  adr = omega arith;
  fields = root-IsDInode;
}

abbrev slots : Slots
slots = (97 ∷ [], 41) ∷ replicate 15 ([], 0)

abbrev names : Names
names u = lookup slots u

free_slots : (n : ℕ) → Represents (replicate n ([], 0)) (replicate n free_entry)
free_slots zero = tt
free_slots (suc n) = ((replicate 27 0, tt, refl, omega arith, refl), free_slots n)

free_slots-Distinct : (n : ℕ) → Distinct (replicate n ([], 0))
free_slots-Distinct zero = tt
free_slots-Distinct (suc n) = (λ named. absurd (named refl), free_slots-Distinct n)

dir-Refines : Refines (entries_at system 5) names
unfolding lookup same_text decode_entries
dir-Refines = (
  slots,
  ((replicate 26 0, omega arith, refl, omega arith, refl), free_slots 15),
  (λ _. refl, free_slots-Distinct 15),
  λ u named. refl,
)

search_file-Names_example :
    (s' : System) × (search_file 3 system (cstr (slash ∷ 97 ∷ []) (8 ∷ [])) (some (replicate 3 9))
      ≡ some (s', block_or (names (97 ∷ []))))
search_file-Names_example =
    search_file-Names system root 5 system-HasRoot 0 names (97 ∷ []) (8 ∷ []) (replicate 3 9)
      dir-Refines (omega arith) (λ e. cc e) (omega arith) (omega arith)

resize-Freed_example :
    (bm' : Bmap) × (resize (record blocks { bm = empty }) root 0
      ≡ some (record blocks { bm = bm' }, record root { direct_pointer = replicate 30 0 }))
    × Freed empty root.direct_pointer bm'
resize-Freed_example =
    resize-Freed (record blocks { bm = empty }) root 0 (omega arith) (omega arith) refl refl
      empty-IsBmap (omega arith)
