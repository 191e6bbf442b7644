-- ===== src/Fs/Tree/Truncate/Shrink.antt =====
-- Which blocks a file gives back when it becomes smaller.
use mathlib.Core.Path.{subst}
use potatoes.Prelude.{
  ℕ, zero, suc, ◌+◌, ◌/◌, ◌^◌, ◌<◌, ◌≡◌, refl, sym, ap, ◌∙◌, inl, inr, Bool, true, false, ◌||◌,
  some, List, [], ◌∷◌, ◌++◌, ◌==◌, ltb, if◌then◌else◌, ◌>>=◌, take, drop, replicate, length, arith,
  Bool-cases, eq→==, ==→eq,
}
use potatoes.Fs.Bmap.{Bmap}
use potatoes.Fs.Bmap.Mark.{allocated, IsBmap, mark_block-Marked}
use potatoes.Fs.Inodes.{MInode}
use potatoes.Fs.Blocks.{Blocks}
use potatoes.Fs.Tree.Truncate.{free_blocks, shrink_single, shrink_double, shrink_blocks, resize}

-- The pointers are numbers of blocks of a disk of that size; NULL is 0.
abbrev pub OnDisk : ℕ → List ℕ → Type 0
OnDisk size [] = Unit
OnDisk size (b ∷ bs) = (b < size) × OnDisk size bs

-- Whether one of the pointers, NULL left aside, leads to block `j`.
pub leads_to : List ℕ → ℕ → Bool
leads_to [] j = false
leads_to (b ∷ bs) j = if b == 0 then leads_to bs j else (j == b || leads_to bs j)

-- The pointers with NULL from index `start` on.
abbrev pub kept : ℕ → List ℕ → List ℕ
kept start ps = take start ps ++ replicate (length (drop start ps)) 0

-- `bm'` is `bm` with the blocks of `ps` unused.
abbrev pub Freed : Bmap → List ℕ → Bmap → Type 0
Freed bm ps bm' =
    IsBmap bm'
    × (bm'.dev.hdsize ≡ bm.dev.hdsize)
    × ((j : ℕ) → allocated bm' j ≡ (if leads_to ps j then false else allocated bm j))

-- The loop over pointers of a file, whose blocks are on the disk, does not fault. It marks the blocks
-- behind the first `start` pointers as unused and no other, and sets their pointers to NULL.
pub free_blocks-Freed :
    (bm : Bmap) (start : ℕ) (ps : List ℕ)
    → IsBmap bm
    → OnDisk bm.dev.hdsize ps
    → (bm' : Bmap) × (free_blocks bm start ps ≡ some (bm', kept start ps))
      × Freed bm (drop start ps) bm'
unfolding free_blocks leads_to
free_blocks-Freed bm zero [] v h = (bm, refl, (v, refl, λ j. refl))
free_blocks-Freed bm (suc start) [] v h = (bm, refl, (v, refl, λ j. refl))
free_blocks-Freed bm (suc start) (b ∷ bs) v h =
    let (bm', ran, freed) = free_blocks-Freed bm start bs v h.1 in (bm', rw ran refl, freed)
free_blocks-Freed bm zero (b ∷ bs) v h = elim (Bool-cases (b == 0)) [
  | inl null ↦
      let (bm', ran, (valid, size, bits)) = free_blocks-Freed bm zero bs v h.1 in
      (
        bm',
        rw (null, ran) (ap (λ c. some (bm', c ∷ replicate (length bs) 0)) (==→eq b 0 null)),
        (valid, size, λ j. rw null (bits j)),
      )
  | inr block ↦
      let (bm1, marked, mark) = mark_block-Marked v b h.0 false in
      let (bm', ran, (valid, size, bits)) =
        free_blocks-Freed bm1 zero bs mark.valid
          (subst (λ n. OnDisk n bs) (sym mark.same_hdsize) h.1) in
      (
        bm',
        rw (block, marked, ran) refl,
        (valid, size ∙ mark.same_hdsize, λ j. rw block (bits j ∙ ground (arith, mark.bits j))),
      )
]

if_true {ℓ} : {A : Type ℓ} (b : Bool) (x y : A) → b ≡ true → (if b then x else y) ≡ x
if_true b x y e = rw e refl

shrink_single-none :
    (start : ℕ) (bm : Bmap) (inode : MInode)
    → inode.single_indirect_pointer ≡ 0
    → shrink_single start (bm, inode) ≡ some (bm, inode)
unfolding shrink_single
shrink_single-none start bm inode single = rw (eq→== inode.single_indirect_pointer 0 single) refl

shrink_double-none :
    (s : Blocks) (start : ℕ) (bm : Bmap) (inode : MInode)
    → inode.double_indirect_pointer ≡ 0
    → shrink_double s start (bm, inode) ≡ some (record s { bm = bm }, inode)
unfolding shrink_double
shrink_double-none s start bm inode double =
    if_true (inode.double_indirect_pointer == 0) _ _ (eq→== inode.double_indirect_pointer 0 double)

-- Without indirect pointers nothing follows the loop over the direct ones.
after_direct :
    (s : Blocks) (inode : MInode) (start : ℕ) (bm : Bmap)
    → inode.single_indirect_pointer ≡ 0
    → inode.double_indirect_pointer ≡ 0
    → (shrink_single start (bm, inode) >>= shrink_double s start)
      ≡ some (record s { bm = bm }, inode)
after_direct s inode start bm single double =
    ap (λ r. r >>= shrink_double s start) (shrink_single-none start bm inode single)
    ∙ shrink_double-none s start bm inode double

shrink_blocks-Freed :
    (s : Blocks) (inode : MInode) (size : ℕ)
    → size + 511 < 2 ^ 32
    → inode.single_indirect_pointer ≡ 0
    → inode.double_indirect_pointer ≡ 0
    → IsBmap s.bm
    → OnDisk s.bm.dev.hdsize inode.direct_pointer
    → (bm' : Bmap) × (shrink_blocks s inode size
        ≡ some (
          record s { bm = bm' },
          record inode { direct_pointer = kept ((size + 511) / 512) inode.direct_pointer },
        ))
      × Freed s.bm (drop ((size + 511) / 512) inode.direct_pointer) bm'
unfolding shrink_blocks
shrink_blocks-Freed s inode size small single double v h =
    let (bm', ran, freed) = free_blocks-Freed s.bm ((size + 511) / 512) inode.direct_pointer v h in
    let loop = λ (start : ℕ). free_blocks s.bm start inode.direct_pointer >>= (λ (bm, pointers).
      shrink_single start (bm, record inode { direct_pointer = pointers })
      >>= shrink_double s start) in
    (
      bm',
      ap loop (omega arith)
          ∙ (ap
                (λ r. r >>= (λ (bm, pointers).
                  shrink_single ((size + 511) / 512)
                    (bm, record inode { direct_pointer = pointers })
                  >>= shrink_double s ((size + 511) / 512)))
                ran
              ∙ after_direct s
                  (record inode { direct_pointer = kept ((size + 511) / 512) inode.direct_pointer })
                  ((size + 511) / 512) bm' single double),
      freed,
    )

-- A file that becomes smaller, and has no indirect pointers, gives back exactly the blocks of the
-- direct pointers behind its new end: these are marked as unused and no other block is, their
-- pointers are NULL, and the pointers before the end stay.
pub resize-Freed :
    (s : Blocks) (inode : MInode) (size : ℕ)
    → size < inode.size
    → size + 511 < 2 ^ 32
    → inode.single_indirect_pointer ≡ 0
    → inode.double_indirect_pointer ≡ 0
    → IsBmap s.bm
    → OnDisk s.bm.dev.hdsize inode.direct_pointer
    → (bm' : Bmap) × (resize s inode size
        ≡ some (
          record s { bm = bm' },
          record inode { direct_pointer = kept ((size + 511) / 512) inode.direct_pointer },
        ))
      × Freed s.bm (drop ((size + 511) / 512) inode.direct_pointer) bm'
unfolding resize
resize-Freed s inode size less small single double v h =
    let (bm', ran, freed) = shrink_blocks-Freed s inode size small single double v h in
    let smaller : ltb size inode.size ≡ true = ground arith in (bm', rw smaller ran, freed)
