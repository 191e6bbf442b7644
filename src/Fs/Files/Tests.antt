-- ===== src/Fs/Files/Tests.antt =====
-- Small file tables, with the name "ab" as the bytes 97 and 98.
use mathlib.Core.Path.{subst}
use potatoes.Prelude.{
  zero, suc, ◌≡◌, ◌⊎◌, inl, inr, refl, sym, ap, List, [], ◌∷◌, some, none, arith, some-eq,
  replicate,
}
use potatoes.Prelude.Int.{pos}
use potatoes.Klib.Strings.Text.{cstr, IsText}
use potatoes.Klib.Strings.Compare.{strcmp-zero_iff}
use potatoes.Fs.Inodes.{MInode}
use potatoes.Fs.Inodes.Alloc.{IsInodeTable}
use potatoes.Fs.Files.{File, ProcFile, minus_one, name2desc}
use potatoes.Fs.Files.Process.{
  IsProcTable, Inserted, Refused, Referenced, insert_proc_file_lem, closed,
}
use potatoes.Fs.Files.Global.{IsFileTable, Open}
use potatoes.Fs.Files.Names.{IsName, HasNames}

abbrev pub inode : MInode
inode = record {
  num = pos 0;
  adr = 40;
  mode = 1;
  size = 700;
  create_ts = 11;
  modify_ts = 12;
  direct_pointer = replicate 30 0;
  single_indirect_pointer = 0;
  double_indirect_pointer = 0;
}

abbrev pub file : File
file = record {
  desc = pos 0;
  inode = some 0;
  name = some (cstr (97 ∷ 98 ∷ []) []);
  mode = 1;
  count = 1;
}

abbrev pub unused_file : File
unused_file = record { desc = minus_one; inode = none; name = none; mode = 0; count = 0 }

abbrev pub files : List File
files = file ∷ unused_file ∷ []

abbrev proc_file : ProcFile
proc_file = record { desc = pos 0; f_desc = pos 0; position = 7 }

abbrev proc_files : List ProcFile
proc_files = proc_file ∷ closed ∷ []

proc_files-IsProcTable : IsProcTable proc_files
proc_files-IsProcTable zero x e = inr (ap (λ (y : ProcFile). y.desc) (sym (some-eq e)))
proc_files-IsProcTable (suc zero) x e = inl (ap (λ (y : ProcFile). y.desc) (sym (some-eq e)))
proc_files-IsProcTable (suc (suc i)) x e = absurd (cc)

files-IsFileTable : IsFileTable files
files-IsFileTable zero x e = inr (ap (λ (y : File). y.desc) (sym (some-eq e)))
files-IsFileTable (suc zero) x e = inl (ap (λ (y : File). y.desc) (sym (some-eq e)))
files-IsFileTable (suc (suc i)) x e = absurd (cc)

nodes-IsInodeTable : IsInodeTable (inode ∷ [])
nodes-IsInodeTable zero x e = inr (ap (λ (y : MInode). y.num) (sym (some-eq e)))
nodes-IsInodeTable (suc i) x e = absurd (cc)

ab-IsText : IsText (97 ∷ 98 ∷ [])
ab-IsText = omega arith

files-HasNames : HasNames files
files-HasNames zero f e =
    subst IsName (ap (λ (y : File). y.name) (some-eq e)) (97 ∷ 98 ∷ [], [], ab-IsText, refl)
files-HasNames (suc zero) f e = subst IsName (ap (λ (y : File). y.name) (some-eq e)) tt
files-HasNames (suc (suc i)) f e = absurd (cc)

insert_proc_file_lem_example :
    ((gft' : List File) × Referenced files (pos 0) gft' × Inserted files proc_files (pos 0) gft')
    ⊎ Refused files proc_files (pos 0)
insert_proc_file_lem_example = insert_proc_file_lem files proc_files (pos 0) proc_files-IsProcTable

pub file-Open : Open (inode ∷ []) files 0 file 0 inode
file-Open = record {
  files = files-IsFileTable;
  nodes = nodes-IsInodeTable;
  file = refl;
  desc = refl;
  points = refl;
  node = refl;
  num = refl;
}

-- The first entry bears the name "ab".
pub files_named : name2desc files (cstr (97 ∷ 98 ∷ []) []) ≡ some (pos 0)
unfolding name2desc
files_named =
    let (ran, zero_iff) = strcmp-zero_iff (97 ∷ 98 ∷ []) (97 ∷ 98 ∷ []) [] [] ab-IsText ab-IsText in
    rw (ran, zero_iff.1 refl) refl
