-- ===== src/Fs/Inodes/Copy.antt =====
-- Inodes survive the way to their disk form and back.
use potatoes.Prelude.{
  ℕ, zero, suc, ◌≤◌, ◌≡◌, refl, ap, ◌∙◌, List, [], ◌∷◌, ◌++◌, some, ◌>>=◌, arith, length, take,
  drop, take-all, drop-all, append-nil,
}
use potatoes.Fs.Inodes.{
  DInode, MInode, num_direct_pointer, copy_pointers, cpy_minode_to_dinode, cpy_dinode_to_minode,
}

copy_pointers-take :
    (n : ℕ) (dest src : List ℕ)
    → n ≤ length dest
    → n ≤ length src
    → copy_pointers n dest src ≡ some (take n src ++ drop n dest)
unfolding copy_pointers
copy_pointers-take zero dest src h k = refl
copy_pointers-take (suc n) [] src h k = absurd (omega arith)
copy_pointers-take (suc n) (d ∷ dest) [] h k = absurd (omega arith)
copy_pointers-take (suc n) (d ∷ dest) (s ∷ src) h k =
    rw (copy_pointers-take n dest src (omega arith) (omega arith)) refl

pub copy_pointers-all :
    (dest src : List ℕ)
    → length dest ≡ num_direct_pointer
    → length src ≡ num_direct_pointer
    → copy_pointers num_direct_pointer dest src ≡ some src
copy_pointers-all dest src h k =
    copy_pointers-take num_direct_pointer dest src (omega arith) (omega arith)
    ∙ (ap (λ r. some (take num_direct_pointer src ++ r)) (drop-all dest num_direct_pointer h)
        ∙ ap some (append-nil (take num_direct_pointer src) ∙ take-all src num_direct_pointer k))

-- An inode in memory that is copied into a disk inode and from there into another inode in memory
-- arrives with all its content, while that other inode keeps its own number and address.
pub cpy_dinode_to_minode-cpy_minode_to_dinode :
    (source target : MInode) (d : DInode)
    → length source.direct_pointer ≡ num_direct_pointer
    → length target.direct_pointer ≡ num_direct_pointer
    → length d.direct_pointer ≡ num_direct_pointer
    → (cpy_minode_to_dinode d source >>= cpy_dinode_to_minode target)
      ≡ some (record source { num = target.num; adr = target.adr })
unfolding cpy_minode_to_dinode cpy_dinode_to_minode
cpy_dinode_to_minode-cpy_minode_to_dinode source target d h k l =
    rw
      (
        copy_pointers-all d.direct_pointer source.direct_pointer l h,
        copy_pointers-all target.direct_pointer source.direct_pointer k h,
      )
      refl
