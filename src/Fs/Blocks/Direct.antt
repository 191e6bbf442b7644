-- ===== src/Fs/Blocks/Direct.antt =====
-- `get_data_block` by the direct pointers of an inode.
use potatoes.Prelude.{
  ℕ, zero, suc, ◌/◌, ◌^◌, ◌≤◌, ◌<◌, ◌≡◌, ◌≢◌, refl, sym, ap, ◌∙◌, Bool, true, false, List, [], ◌∷◌,
  Option, some, ◌==◌, ltb, if◌then◌else◌, arith, length, get_elem?, get_elem?-lt, set, length-set,
  eq→==, ne→==, some-eq,
}
use potatoes.Fs.Device.Laws.{IsDevice, zeros, clear_block-Written}
use potatoes.Fs.Bmap.{Bmap, not_found}
use potatoes.Fs.Bmap.Mark.{allocated, IsBmap}
use potatoes.Fs.Bmap.Free.{Taken, AllAllocated, alloc_block-Taken}
use potatoes.Fs.Inodes.{MInode}
use potatoes.Fs.Inodes.Bytes.{IsDInode, AllWords}
use potatoes.Fs.Inodes.Disk.{InodeIo}
use potatoes.Fs.Inodes.Disk.Persist.{content, Stores, write_inode-Stores}
use potatoes.Fs.Blocks.{
  Blocks, bytes_direct, enlarge_file, follow, finish, keep_direct, direct_block, get_data_block,
}

-- `enlarge_file` has given out block `r`, the first one that was free from `start` on, marked as
-- allocated, no other block marked, and filled with zeros.
abbrev pub Enlarged : Bmap → ℕ → ℕ → Bmap → Type 0
Enlarged bm start r bm' =
    (enlarge_file bm start ≡ some (bm', r))
    × (start ≤ r)
    × (r < bm.dev.hdsize)
    × (allocated bm r ≡ false)
    × AllAllocated bm start r
    × ((j : ℕ) → allocated bm' j ≡ (if j == r then true else allocated bm j))
    × (bm'.dev.sector r ≡ zeros)
    × (bm'.dev.hdsize ≡ bm.dev.hdsize)
    × IsBmap bm'

-- Where `alloc_block` finds a free block, `enlarge_file` returns it, marked as allocated, no other
-- block marked, and filled with zeros on the disk.
pub enlarge_file-Enlarged :
    {bm : Bmap} (start : ℕ) → Taken bm start → (r : ℕ) × (bm' : Bmap) × Enlarged bm start r bm'
unfolding enlarge_file
enlarge_file-Enlarged {bm} start (r, bm1, ran, from, inside, free, before, mark) =
    let on_disk : r ≤ bm1.dev.hdsize = omega (arith, mark.same_hdsize) in
    let (dev', cleared, written) = clear_block-Written mark.valid.device r on_disk in
    (
      r,
      record bm1 { dev = dev' },
      (
        rw (ran, cleared) refl,
        from,
        inside,
        free,
        before,
        mark.bits,
        written.at r ∙ ground arith,
        written.same_size ∙ mark.same_hdsize,
        record {
          device = written.valid;
          count = omega (arith, mark.valid.count, written.same_size);
          fits = omega (arith, mark.valid.fits, written.same_size);
          memory = mark.valid.memory;
          bytes = mark.valid.bytes;
        },
      ),
    )

set-same : (xs : List ℕ) (k p : ℕ) → get_elem? xs k ≡ some p → set xs k p ≡ xs
set-same [] k p e = refl
set-same (x ∷ xs) zero p e = ap (λ y. y ∷ xs) (sym (some-eq e))
set-same (x ∷ xs) (suc k) p e = ap (λ r. x ∷ r) (set-same xs k p e)

AllWords-set : (ws : List ℕ) (k v : ℕ) → v < 2 ^ 32 → AllWords ws → AllWords (set ws k v)
AllWords-set [] k v h a = tt
AllWords-set (w ∷ ws) zero v h a = (h, a.1)
AllWords-set (w ∷ ws) (suc k) v h a = (a.0, AllWords-set ws k v h a.1)

-- The inode with direct pointer `k` changed.
abbrev pub pointed : MInode → ℕ → ℕ → MInode
pointed inode k b = record inode { direct_pointer = set inode.direct_pointer k b }

pointed-IsDInode :
    (inode : MInode) (k b : ℕ)
    → b < 2 ^ 32
    → IsDInode (content inode)
    → IsDInode (content (pointed inode k b))
pointed-IsDInode inode k b h ok = record {
  mode = ok.mode;
  size = ok.size;
  create_ts = ok.create_ts;
  modify_ts = ok.modify_ts;
  pointers = omega (arith, length-set inode.direct_pointer k b, ok.pointers);
  words = AllWords-set inode.direct_pointer k b h ok.words;
  single_indirect = ok.single_indirect;
  double_indirect = ok.double_indirect;
}

-- `get_data_block` has returned a block, with the inode written to its own block.
abbrev pub Found : Blocks → Option (Blocks × MInode × ℕ) → MInode → ℕ → Type 0
Found s result inode b =
    (s' : Blocks) × (result ≡ some (s', inode, b))
    × (s'.bm.bmap ≡ s.bm.bmap)
    × Stores s'.bm.dev inode.adr inode
    × ((j : ℕ) → j ≢ inode.adr → s'.bm.dev.sector j ≡ s.bm.dev.sector j)
    × (s'.bm.dev.hdsize ≡ s.bm.dev.hdsize)
    × IsDevice s'.bm.dev

finish-Found :
    (s : Blocks) (inode : MInode) (b : ℕ)
    → IsDevice s.bm.dev
    → inode.adr ≤ s.bm.dev.hdsize
    → IsDInode (content inode)
    → Found s (finish (s, some b) inode) inode b
unfolding finish
finish-Found s inode b v inside ok =
    let io : InodeIo = record { dev = s.bm.dev; d_inode_cache = s.d_inode_cache } in
    let (io', ran, kept, stores, written) = write_inode-Stores io inode v inside ok in
    (
      record s { bm = record s.bm { dev = io'.dev }; d_inode_cache = io'.d_inode_cache },
      rw ran refl,
      refl,
      stores,
      λ j away. written.at j ∙ ground arith,
      written.same_size,
      written.valid,
    )

Found-by :
    (s : Blocks) {result other : Option (Blocks × MInode × ℕ)} (inode : MInode) (b : ℕ)
    → result ≡ other
    → Found s other inode b
    → Found s result inode b
Found-by s inode b same (s', ran, kept, stores, others, size, valid) =
    (s', same ∙ ran, kept, stores, others, size, valid)

-- A position within the direct pointers whose pointer is not set, where the file may not grow.
pub get_data_block-unset :
    (s : Blocks) (inode : MInode) (at_byte : ℕ)
    → at_byte < bytes_direct
    → get_elem? inode.direct_pointer (at_byte / 512) ≡ some 0
    → get_data_block s inode at_byte false ≡ some (s, inode, not_found)
unfolding get_data_block direct_block follow keep_direct
get_data_block-unset s inode at_byte direct e =
    let near : ltb at_byte bytes_direct ≡ true = ground arith in rw (near, e) refl

module _ (s : Blocks) (inode : MInode) (at_byte : ℕ) (direct : at_byte < bytes_direct) (p : ℕ)
    (e : get_elem? inode.direct_pointer (at_byte / 512) ≡ some p) (v : IsDevice s.bm.dev)
    (inside : inode.adr ≤ s.bm.dev.hdsize) (ok : IsDInode (content inode)) where
  is_direct : ltb at_byte bytes_direct ≡ true
  is_direct = ground arith

  has_pointer : ltb (at_byte / 512) (length inode.direct_pointer) ≡ true
  has_pointer = ground (arith, get_elem?-lt inode.direct_pointer (at_byte / 512) e)

  get_data_block-finish :
      (allow : Bool) → p ≢ 0 → get_data_block s inode at_byte allow ≡ finish (s, some p) inode
  unfolding get_data_block direct_block follow keep_direct
  get_data_block-finish allow ne =
      rw (is_direct, e, ne→== p 0 ne, has_pointer)
        (ap (λ ps. finish (s, some p) (record inode { direct_pointer = ps }))
          (set-same inode.direct_pointer (at_byte / 512) p e))

  -- For a position within the direct pointers, a pointer that is set is returned, whether or not the
  -- file may grow: the inode is written to its own block, the bitmap and all other blocks stay. A
  -- pointer that is not set gives NOT_EXISTENT where the file may not grow, and nothing changes.
  pub get_data_block-Found :
      ((allow : Bool) → p ≢ 0 → Found s (get_data_block s inode at_byte allow) inode p)
      × (p ≡ 0 → get_data_block s inode at_byte false ≡ some (s, inode, not_found))
  unfolding get_data_block direct_block follow keep_direct
  get_data_block-Found = (
    λ allow ne.
        Found-by s inode p (get_data_block-finish allow ne) (finish-Found s inode p v inside ok),
    λ unset. rw (is_direct, e, eq→== p 0 unset) refl,
  )

  -- On a disk of at most 2 ^ 32 blocks with a well-formed bitmap: for a position within the direct
  -- pointers whose pointer is not set, where the file may grow and a block `k` is free from the
  -- inode's own on, the first such block is allocated and no other, and filled with zeros, the
  -- pointer is set to it, and the inode is written to its own block.
  pub get_data_block-Grown :
      (k : ℕ)
      → p ≡ 0
      → s.bm.dev.hdsize ≤ 2 ^ 32
      → IsBmap s.bm
      → inode.adr ≤ k
      → k < s.bm.dev.hdsize
      → allocated s.bm k ≡ false
      → (r : ℕ) × (bm' : Bmap) × Enlarged s.bm inode.adr r bm'
        × Found
            (record s { bm = bm' })
            (get_data_block s inode at_byte true)
            (pointed inode (at_byte / 512) r)
            r
  unfolding get_data_block direct_block follow keep_direct
  get_data_block-Grown k unset small bitmap near on_disk free_k =
      let taken = alloc_block-Taken bitmap inode.adr k near on_disk free_k in
      let (r, bm', (ran, from, under, free, before, bits, blank, size, valid)) =
        enlarge_file-Enlarged inode.adr taken in
      let grown : Blocks = record s { bm = bm' } in
      (
        r,
        bm',
        (ran, from, under, free, before, bits, blank, size, valid),
        Found-by grown (pointed inode (at_byte / 512) r) r
            (rw (is_direct, e, eq→== p 0 unset, ran, has_pointer) refl)
            (finish-Found grown (pointed inode (at_byte / 512) r) r valid.device
              (omega (arith, size)) (pointed-IsDInode inode (at_byte / 512) r (omega arith) ok)),
      )
