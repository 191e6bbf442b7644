-- ===== src/Fs/Inodes/Alloc.antt =====
-- Entries of the inode table are given out and taken back.
use potatoes.Prelude.{
  ℕ, ◌<◌, ◌≡◌, ◌≢◌, ◌⊎◌, inl, inr, refl, ap, ◌∙◌, Bool, false, Option, some, none, arith, get_elem?,
  get_elem?-set, get_elem?-lt, set,
}
use potatoes.Prelude.Int.{ℤ, pos, eq_ℤ, eq_ℤ→eq, eq_ℤ-self}
use potatoes.Fs.Table.{first, IsFirst, first-IsFirst, IsTable, set-IsTable, first-num, first-unused}
use potatoes.Fs.Inodes.{
  MInode, InodeTable, nil_inode, get_inode, take_inode, alloc_inode, free_inode,
}

-- An entry is unused, or bears the number of its place.
abbrev pub IsInodeTable : InodeTable → Type 0
IsInodeTable = IsTable (λ (x : MInode). x.num)

abbrev pub numbered : InodeTable → ℕ → MInode → ℤ → InodeTable
numbered t i x n = set t i (record x { num = n })

-- `alloc_inode` has given out the first unused entry.
abbrev pub GivenOut : InodeTable → Type 0
GivenOut t =
    (i : ℕ) × (x : MInode) × (get_elem? t i ≡ some x)
    × (x.num ≡ nil_inode)
    × ((j : ℕ) (y : MInode) → j < i → get_elem? t j ≡ some y → y.num ≢ nil_inode)
    × (alloc_inode t ≡ some (numbered t i x (pos i), some i))
    × IsInodeTable (numbered t i x (pos i))
    × (get_inode (numbered t i x (pos i)) (pos i) ≡ some i)

abbrev pub AllUsed : InodeTable → Type 0
AllUsed t = (j : ℕ) (y : MInode) → get_elem? t j ≡ some y → y.num ≢ nil_inode

not_nil : (x : MInode) → eq_ℤ x.num nil_inode ≡ false → x.num ≢ nil_inode
not_nil x h e = cc (h, ap (λ n. eq_ℤ n nil_inode) e, eq_ℤ-self nil_inode)

at-set :
    (t : InodeTable) (i : ℕ) {x : MInode} (v : MInode)
    → get_elem? t i ≡ some x
    → get_elem? (set t i v) i ≡ some v
at-set t i v e = ground (arith, get_elem?-set t i i v (get_elem?-lt t i e))

-- In a table whose entries bear the numbers of their places, `alloc_inode` either numbers the first
-- unused entry by its place, changes nothing else, and `get_inode` then finds the entry by that
-- number; or no entry is unused, and it returns NULL and changes nothing.
pub alloc_inode_lem :
    (t : InodeTable) → IsInodeTable t → GivenOut t ⊎ (AllUsed t × (alloc_inode t ≡ some (t, none)))
unfolding alloc_inode take_inode get_inode
alloc_inode_lem t table = found (first p t) refl (first-IsFirst p t)
  where
    p : MInode → Bool
    p x = eq_ℤ x.num nil_inode

    found :
        (o : Option ℕ)
        → first p t ≡ o
        → IsFirst p t o
        → GivenOut t ⊎ (AllUsed t × (alloc_inode t ≡ some (t, none)))
    found none r all = inr (λ j y e. not_nil y (all j y e), ap (take_inode t) r)
    found (some i) r ((x, e, h), before) =
        let v : MInode = record x { num = pos i } in
        let after = set-IsTable (λ (y : MInode). y.num) t i v e (inr refl) table in
        inl (
          i,
          x,
          e,
          eq_ℤ→eq x.num nil_inode h,
          λ j y k f. not_nil y (before j y k f),
          ap (take_inode t) r ∙ rw e refl,
          after,
          first-num (λ (y : MInode). y.num) (set t i v) i after (at-set t i v e) refl,
        )

-- In such a table, `free_inode` of a number in use takes that number from its entry and changes
-- nothing else; `get_inode` then finds the number no more.
pub free_inode_lem :
    (t : InodeTable) (i : ℕ) (x : MInode)
    → IsInodeTable t
    → get_elem? t i ≡ some x
    → x.num ≡ pos i
    → (free_inode t (pos i) ≡ some (numbered t i x nil_inode))
      × IsInodeTable (numbered t i x nil_inode)
      × (get_inode (numbered t i x nil_inode) (pos i) ≡ none)
unfolding free_inode get_inode
free_inode_lem t i x table e used =
    let v : MInode = record x { num = nil_inode } in
    let after = set-IsTable (λ (y : MInode). y.num) t i v e (inl refl) table in
    (
      rw (first-num (λ (y : MInode). y.num) t i table e used, e) refl,
      after,
      first-unused (λ (y : MInode). y.num) (set t i v) i after (at-set t i v e) refl,
    )
