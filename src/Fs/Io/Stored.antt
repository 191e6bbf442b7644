-- ===== src/Fs/Io/Stored.antt =====
-- What `fs_write` leaves on the disk, and that `fs_read` gives it back.
use potatoes.Prelude.{
  ℕ, zero, suc, ◌+◌, ◌-◌, ◌/◌, ◌%◌, ◌^◌, ◌≤◌, ◌<◌, ◌≡◌, ◌≢◌, refl, ap, ◌∙◌, Bool, true, false, not,
  List, [], ◌∷◌, ◌++◌, some, ◌==◌, ltb, arith, length, take, drop, get_elem?, eq→==, ne→==,
}
use potatoes.Klib.Memory.{take-front}
use potatoes.Fs.Device.Laws.{IsDevice, block_size-eq}
use potatoes.Fs.Bmap.{not_found}
use potatoes.Fs.Inodes.{MInode}
use potatoes.Fs.Inodes.Bytes.{IsDInode}
use potatoes.Fs.Inodes.Disk.Persist.{content, Stores}
use potatoes.Fs.Blocks.{Blocks, bytes_direct}
use potatoes.Fs.Blocks.Direct.{get_data_block-Found}
use potatoes.Fs.Io.{with_dev, fs_read, fs_write}
use potatoes.Fs.Io.Read.{accepts, fs_read-take}
use potatoes.Fs.Io.Write.{
  patched, write_part-Written, written_inode, written_inode-IsDInode, write_back-Stores,
}

-- What is taken from a patched block behind the offset is what has been written.
pub take-patched :
    (old : List ℕ) (offset n : ℕ) (buf : List ℕ)
    → offset ≤ length old
    → n ≤ length buf
    → take n (drop offset (patched old offset n buf)) ≡ take n buf
take-patched [] zero n buf h k = take-front n buf (drop n []) k
take-patched [] (suc offset) n buf h k = absurd (omega arith)
take-patched (x ∷ old) zero n buf h k = take-front n buf (drop n (x ∷ old)) k
take-patched (x ∷ old) (suc offset) n buf h k = take-patched old offset n buf (omega arith) k

-- `n` bytes of `buf` stand at a position of the file whose block is `p`.
abbrev pub StoredAt : Blocks → MInode → ℕ → List ℕ → ℕ → ℕ → Blocks → MInode → Type 0
StoredAt s inode p buf n at_byte s' inode' =
    (s'.bm.dev.sector p ≡ patched (s.bm.dev.sector p) (at_byte % 512) n buf)
    × Stores s'.bm.dev inode.adr inode'
    × ((j : ℕ) → j ≢ p → j ≢ inode.adr → s'.bm.dev.sector j ≡ s.bm.dev.sector j)
    × (s'.bm.bmap ≡ s.bm.bmap)
    × (s'.bm.dev.hdsize ≡ s.bm.dev.hdsize)
    × IsDevice s'.bm.dev

module _ (fuel : ℕ) (s : Blocks) (buf : List ℕ) (inode : MInode) (n at_byte p : ℕ) (allow : Bool)
    (time : ℕ) (some_bytes : 0 < n) (room : n ≤ length buf) (before : at_byte ≤ inode.size)
    (direct : at_byte < bytes_direct) (within : at_byte % 512 + n ≤ 512)
    (e : get_elem? inode.direct_pointer (at_byte / 512) ≡ some p) (set_p : p ≢ 0)
    (other : p ≢ inode.adr) (on_disk : p ≤ s.bm.dev.hdsize) (small : s.bm.dev.hdsize < 2 ^ 32 - 1)
    (v : IsDevice s.bm.dev) (inside : inode.adr ≤ s.bm.dev.hdsize) (ok : IsDInode (content inode))
    (in_time : time < 2 ^ 64) where
  -- A write of at least one byte that starts at or before the end of the file and stays within one
  -- block, whose direct pointer is set to a block other than the inode's own, does not fault and
  -- writes all bytes. They stand in that block from the place that the position gives, and the rest
  -- of the block is as before. The inode, on the disk too, has the time of the call and reaches to
  -- the end of the write at least. The bitmap and all other blocks stay.
  pub fs_write-StoredAt :
      (s' : Blocks) × (fs_write (suc fuel) s inode buf n at_byte allow time
        ≡ some (s', written_inode inode n at_byte time, n))
      × StoredAt s inode p buf n at_byte s' (written_inode inode n at_byte time)
  unfolding fs_write
  fs_write-StoredAt =
      let (s1, ran, kept, stores, others, size, valid) =
        (get_data_block-Found s inode at_byte direct p e v inside ok).0 allow set_p in
      let (dev2, wrote, written) =
        write_part-Written s1 buf p (at_byte % 512) n valid (omega (arith, size)) within room in
      let (s3, back, kept3, stores3, others3, size3, valid3) =
        write_back-Stores (with_dev s1 dev2) inode n at_byte time written.valid
          (omega (arith, size, written.same_size)) (omega arith) in_time ok in
      let found : (p == not_found) ≡ false = ne→== p not_found (omega arith) in
      let inner : not (ltb 512 ((at_byte % 512 + n) % 2 ^ 32)) ≡ true = ground arith in
      (
        s3,
        rw (accepts inode n at_byte allow some_bytes before, ran, found, inner, wrote) back,
        (
          others3 p other
              ∙ (written.at p
                  ∙ rw (eq→== p p refl)
                      (ap (λ o. patched o (at_byte % 512) n buf) (others p other))),
          stores3,
          λ j away far. others3 j far ∙ (written.at j ∙ rw (ne→== j p away) (others j far)),
          kept3 ∙ kept,
          size3 ∙ (written.same_size ∙ size),
          valid3,
        ),
      )

  -- What such a write has put into a file is what `fs_read` of the same range gives back, into any
  -- buffer that is large enough.
  pub fs_read-fs_write :
      (target : List ℕ)
      → n ≤ length target
      → (s' s'' : Blocks) × (fs_write (suc fuel) s inode buf n at_byte allow time
          ≡ some (s', written_inode inode n at_byte time, n))
        × (fs_read (suc fuel) s' target (written_inode inode n at_byte time) n at_byte allow
            ≡ some (s'', written_inode inode n at_byte time, take n buf ++ drop n target, n))
  fs_read-fs_write target fits =
      let (s', ran, (block, stores, others, kept, size, valid)) = fs_write-StoredAt in
      let (s'', read) =
        fs_read-take fuel s' target (written_inode inode n at_byte time) n at_byte p allow
          some_bytes fits (omega arith) direct within e set_p other (omega (arith, size))
          (omega (arith, size)) valid (omega (arith, size))
          (written_inode-IsDInode inode n at_byte time (omega arith) in_time ok) in
      (
        s',
        s'',
        ran,
        read
            ∙ ap (λ t. some (s'', written_inode inode n at_byte time, t ++ drop n target, n))
                (ap (λ b. take n (drop (at_byte % 512) b)) block
                  ∙ take-patched (s.bm.dev.sector p) (at_byte % 512) n buf
                      (omega (arith, v.sectors p, block_size-eq)) room),
      )
