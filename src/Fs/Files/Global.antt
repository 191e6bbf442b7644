-- ===== src/Fs/Files/Global.antt =====
-- The global file table.
use potatoes.Prelude.{
  ℕ, ◌-◌, ◌<◌, ◌≤◌, ◌≡◌, ◌⊎◌, inl, inr, refl, ap, ◌∙◌, List, some, none, ◌>>=◌, ◌==◌, if◌then◌else◌,
  arith, get_elem?, get_elem?-set, get_elem?-lt, set, ==→eq, ==→ne, Bool-cases,
}
use potatoes.Prelude.Int.{pos}
use potatoes.Fs.Table.{IsTable, set-IsTable, first-num, first-unused}
use potatoes.Fs.Bmap.{root_inode_block}
use potatoes.Fs.Inodes.{MInode, InodeTable, nil_inode, free_inode}
use potatoes.Fs.Inodes.Alloc.{IsInodeTable, numbered, free_inode_lem}
use potatoes.Fs.Files.{
  File, minus_one, get_file, drop_inode, drop_reference, free_file_at, free_file,
}

abbrev pub IsFileTable : List File → Type 0
IsFileTable = IsTable (λ (x : File). x.desc)

abbrev pub given_up : File → File
given_up f = record f { desc = minus_one; name = none; count = 0 }

at-set :
    (t : List File) (i : ℕ) {x : File} (v : File)
    → get_elem? t i ≡ some x
    → get_elem? (set t i v) i ≡ some v
at-set t i v e = ground (arith, get_elem?-set t i i v (get_elem?-lt t i e))

-- The entry `i` of the file table is in use by `f`, and its inode `x` is entry `k` of the inode table.
pub record Open (inodes : InodeTable) (gft : List File) (i : ℕ) (f : File) (k : ℕ) (x : MInode)
    : Type 0 where
  pub files : IsFileTable gft
  pub nodes : IsInodeTable inodes
  pub file : get_elem? gft i ≡ some f
  pub desc : f.desc ≡ pos i
  pub points : f.inode ≡ some k
  pub node : get_elem? inodes k ≡ some x
  pub num : x.num ≡ pos k

module _ {inodes : InodeTable} {gft : List File} {i : ℕ} {f : File} {k : ℕ} {x : MInode}
    (o : Open inodes gft i f k x) where
  free_file-drop : free_file inodes gft (pos i) ≡ drop_reference inodes gft i f (f.count - 1)
  unfolding free_file
  free_file-drop =
      ap (free_file_at inodes gft) (first-num (λ (y : File). y.desc) gft i o.files o.file o.desc)
      ∙ ap (λ r. r >>= (λ (g : File). drop_reference inodes gft i g (g.count - 1))) o.file

  -- The inode table after the file is given up: the root inode stays.
  abbrev pub inodes_left : InodeTable
  inodes_left = if x.adr == root_inode_block then inodes else numbered inodes k x nil_inode

  drop_inode-left : drop_inode inodes f.inode ≡ some inodes_left
  drop_inode-left =
      ap (drop_inode inodes) o.points
      ∙ (ap
            (λ r. r >>= (λ (y : MInode).
              if y.adr == root_inode_block then some inodes else free_inode inodes y.num))
            o.node
          ∙ elim (Bool-cases (x.adr == root_inode_block)) [
            | inl root ↦ rw root refl
            | inr other ↦
                rw other (
                  ap (free_inode inodes) o.num ∙ (free_inode_lem inodes k x o.nodes o.node o.num).0)
          ])

  -- While more than one reference is left, `free_file` of an open file takes one reference away and
  -- changes nothing else. With the last one it gives up the entry and the inode, unless that is the
  -- root's, and the descriptor is found no more.
  pub free_file_lem :
      ((1 < f.count)
        × (free_file inodes gft (pos i)
            ≡ some (inodes, set gft i (record f { count = f.count - 1 }))))
      ⊎ ((f.count ≤ 1)
          × (free_file inodes gft (pos i) ≡ some (inodes_left, set gft i (given_up f)))
          × IsFileTable (set gft i (given_up f))
          × (get_file (set gft i (given_up f)) (pos i) ≡ none))
  free_file_lem = elim (Bool-cases (f.count - 1 == 0)) [
    | inl last ↦
        let after =
          set-IsTable (λ (y : File). y.desc) gft i (given_up f) o.file (inl refl) o.files in
        inr (
          omega (arith, ==→eq (f.count - 1) 0 last),
          free_file-drop ∙ rw (last, drop_inode-left) refl,
          after,
          first-unused (λ (y : File). y.desc) (set gft i (given_up f)) i after
              (at-set gft i (given_up f) o.file) refl,
        )
    | inr more ↦ inl (omega (arith, ==→ne (f.count - 1) 0 more), free_file-drop ∙ rw more refl)
  ]
