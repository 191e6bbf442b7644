-- ===== src/Fs/Tree/Open/Close.antt =====
-- Closing files, and opening a file that is open.
use potatoes.Prelude.{
  ℕ, ◌-◌, ◌<◌, ◌≤◌, ◌≡◌, ◌≢◌, ◌⊎◌, inl, inr, refl, ap, ap₂, ◌∙◌, true, false, none, some, List, [],
  ◌∷◌, if◌then◌else◌, ◌>>=◌, arith, get_elem?, set, Bool-cases,
}
use potatoes.Prelude.Int.{ℤ, pos, eq_ℤ, eq_ℤ→eq}
use potatoes.Klib.Strings.Text.{IsText, cstr}
use potatoes.Klib.Strings.Compare.{difference, strcmp-zero_iff}
use potatoes.Fs.Device.Laws.{IsDevice}
use potatoes.Fs.Inodes.{MInode, InodeTable}
use potatoes.Fs.Inodes.Bytes.{IsDInode}
use potatoes.Fs.Inodes.Disk.{InodeIo}
use potatoes.Fs.Inodes.Disk.Persist.{content, Stores, write_inode-Stores}
use potatoes.Fs.Table.{first-num}
use potatoes.Fs.Files.{File, minus_one, get_file, name2desc, free_file}
use potatoes.Fs.Files.Global.{Open, inodes_left, given_up, free_file_lem}
use potatoes.Fs.Dir.{slash}
use potatoes.Fs.Tree.{System, save_inode}
use potatoes.Fs.Tree.Open.{PathMemory, fs_open, release, close_file, fs_close}

-- Of the disk only block `b` may have changed, and the bitmap has not.
pub record Spared (s : System) (b : ℕ) (s' : System) : Type 0 where
  pub sectors : (j : ℕ) → j ≢ b → s'.blocks.bm.dev.sector j ≡ s.blocks.bm.dev.sector j
  pub size : s'.blocks.bm.dev.hdsize ≡ s.blocks.bm.dev.hdsize
  pub bitmap : s'.blocks.bm.bmap ≡ s.blocks.bm.bmap
  pub directory : s'.dir_cache ≡ s.dir_cache

-- The inode is on the disk, and nothing but its block has changed.
save_inode-Stores :
    (s : System) (x : MInode)
    → IsDevice s.blocks.bm.dev
    → x.adr ≤ s.blocks.bm.dev.hdsize
    → IsDInode (content x)
    → (s' : System) × (save_inode s x ≡ some s')
      × Stores s'.blocks.bm.dev x.adr x
      × (s'.inodes ≡ s.inodes)
      × (s'.gft ≡ s.gft)
      × Spared s x.adr s'
unfolding save_inode
save_inode-Stores s x v inside ok =
    let io : InodeIo = record { dev = s.blocks.bm.dev; d_inode_cache = s.blocks.d_inode_cache } in
    let (io', ran, kept, stores, written) = write_inode-Stores io x v inside ok in
    (
      record s {
        blocks = record s.blocks {
          bm = record s.blocks.bm { dev = io'.dev };
          d_inode_cache = io'.d_inode_cache;
        };
      },
      rw ran refl,
      stores,
      refl,
      refl,
      record {
        sectors = λ j away. written.at j ∙ ground arith;
        size = written.same_size;
        bitmap = refl;
        directory = refl;
      },
    )

release-saved :
    (s s1 : System) (fd : ℤ) (k : ℕ) (x : MInode) {inodes' : InodeTable} {gft' : List File}
    → get_elem? s.inodes k ≡ some x
    → save_inode s x ≡ some s1
    → s1.inodes ≡ s.inodes
    → s1.gft ≡ s.gft
    → free_file s.inodes s.gft fd ≡ some (inodes', gft')
    → release s fd k ≡ some (record s1 { inodes = inodes'; gft = gft' }, true)
unfolding release
release-saved s s1 fd k x node saved same_inodes same_gft freed =
    let freed' = ap₂ (λ n g. free_file n g fd) same_inodes same_gft ∙ freed in
    rw (node, saved, freed') refl

-- File `i` has lost a reference: its last one, and the file is open no more, or another.
abbrev pub Released :
    (s : System) {i : ℕ} {f : File} {k : ℕ} {x : MInode}
    → Open s.inodes s.gft i f k x
    → System
    → Type 0
Released s {i} {f} {k} {x} o s' =
    ((1 < f.count)
      × (s'.inodes ≡ s.inodes)
      × (s'.gft ≡ set s.gft i (record f { count = f.count - 1 })))
    ⊎ ((f.count ≤ 1)
        × (s'.inodes ≡ inodes_left o)
        × (s'.gft ≡ set s.gft i (given_up f))
        × (get_file s'.gft (pos i) ≡ none))

module _ (s : System) {i : ℕ} {f : File} {k : ℕ} {x : MInode} (o : Open s.inodes s.gft i f k x)
    (v : IsDevice s.blocks.bm.dev) (inside : x.adr ≤ s.blocks.bm.dev.hdsize)
    (ok : IsDInode (content x)) where
  -- The tables of inodes and files do not matter to what is spared.
  kept :
      (s1 : System)
      → Spared s x.adr s1
      → (inodes : InodeTable) (gft : List File)
      → Spared s x.adr (record s1 { inodes = inodes; gft = gft })
  kept s1 k inodes gft = record {
    sectors = k.sectors;
    size = k.size;
    bitmap = k.bitmap;
    directory = k.directory;
  }

  found : get_file s.gft (pos i) ≡ some i
  found = first-num (λ (y : File). y.desc) s.gft i o.files o.file o.desc

  -- `fs_close` of an open file succeeds: its inode is on the disk, in its own block, and the file has
  -- lost one reference. With the last one the descriptor is found no more, and the inode is given up,
  -- unless it is the root's. No other block of the disk changes, nor the bitmap.
  pub fs_close-Released :
      (s' : System) × (fs_close s (pos i) ≡ some (s', true))
      × Stores s'.blocks.bm.dev x.adr x
      × Released s o s'
      × Spared s x.adr s'
  unfolding fs_close close_file
  fs_close-Released =
      let (s1, saved, stores, same_inodes, same_gft, spared) = save_inode-Stores s x v inside ok in
      let freed = free_file_lem o in
      let named : eq_ℤ f.desc minus_one ≡ false = ap (λ d. eq_ℤ d minus_one) o.desc in
      let closing =
        ap (close_file s (pos i)) found
        ∙ (ap
              (λ r. r >>= (λ (g : File).
                let closed = g.inode >>= release s (pos i) in
                if eq_ℤ g.desc minus_one then some (s, false) else closed))
              o.file
            ∙ (rw named refl ∙ ap (λ p. p >>= release s (pos i)) o.points)) in
      elim freed [
        | inl (more, ran) ↦ (
          record s1 { inodes = s.inodes; gft = set s.gft i (record f { count = f.count - 1 }) },
          closing ∙ release-saved s s1 (pos i) k x o.node saved same_inodes same_gft ran,
          stores,
          inl (more, refl, refl),
          kept s1 spared (s.inodes) _,
        )
        | inr (last, ran, files, gone) ↦ (
          record s1 { inodes = inodes_left o; gft = set s.gft i (given_up f) },
          closing ∙ release-saved s s1 (pos i) k x o.node saved same_inodes same_gft ran,
          stores,
          inr (last, refl, refl, gone),
          kept s1 spared (inodes_left o) _,
        )
      ]

-- A descriptor that is not in the table.
pub fs_close-unknown :
    (s : System) (fd : ℤ) → get_file s.gft fd ≡ none → fs_close s fd ≡ some (s, false)
unfolding fs_close
fs_close-unknown s fd e = ap (close_file s fd) e

-- `fs_open` of a path that an open file bears, other than the root's, is the descriptor of that file,
-- and nothing changes.
pub fs_open-open :
    (fuel : ℕ) (s : System) (t rest : List ℕ) (memory : PathMemory) (i : ℕ)
    → IsText t
    → t ≢ slash ∷ []
    → name2desc s.gft (cstr t rest) ≡ some (pos i)
    → fs_open fuel s (cstr t rest) memory ≡ some (s, pos i)
unfolding fs_open
fs_open-open fuel s t rest memory i text other e =
    let (ran, zero_iff) = strcmp-zero_iff t (slash ∷ []) rest [] text (omega arith) in
    elim (Bool-cases (eq_ℤ (difference t (slash ∷ [])) (pos 0))) [
      | inl zero_d ↦
          absurd (other (zero_iff.0 (eq_ℤ→eq (difference t (slash ∷ [])) (pos 0) zero_d)))
      | inr nonzero ↦ rw (ran, nonzero, e) refl
    ]
