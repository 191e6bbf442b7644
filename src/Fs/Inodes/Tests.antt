-- ===== src/Fs/Inodes/Tests.antt =====
-- Inode tables of two entries, the first in use.
use potatoes.Prelude.{ℕ, zero, suc, sym, ap, [], ◌∷◌, inl, inr, replicate, some-eq}
use potatoes.Prelude.Int.{ℤ, pos}
use potatoes.Fs.Inodes.{DInode, MInode, InodeTable, nil_inode}
use potatoes.Fs.Inodes.Alloc.{IsInodeTable}

abbrev inode : ℤ → ℕ → MInode
inode n a = record {
  num = n;
  adr = a;
  mode = 2;
  size = 700;
  create_ts = 11;
  modify_ts = 12;
  direct_pointer = 5 ∷ 6 ∷ replicate 28 0;
  single_indirect_pointer = 0;
  double_indirect_pointer = 0;
}

abbrev blank_disk_inode : DInode
blank_disk_inode = record {
  mode = 0;
  size = 0;
  create_ts = 0;
  modify_ts = 0;
  direct_pointer = replicate 30 0;
  single_indirect_pointer = 0;
  double_indirect_pointer = 0;
}

abbrev two_inodes : InodeTable
two_inodes = inode (pos 0) 40 ∷ inode nil_inode 41 ∷ []

two_inodes-IsInodeTable : IsInodeTable two_inodes
two_inodes-IsInodeTable zero x e = inr (ap (λ (y : MInode). y.num) (sym (some-eq e)))
two_inodes-IsInodeTable (suc zero) x e = inl (ap (λ (y : MInode). y.num) (sym (some-eq e)))
two_inodes-IsInodeTable (suc (suc i)) x e = absurd (cc)
