-- ===== src/Fs/Io/Spread.antt =====
-- Writing over the edges of blocks.
use potatoes.Prelude.{
  ℕ, zero, suc, ◌+◌, ◌-◌, ◌*◌, ◌/◌, ◌%◌, ◌^◌, ◌≤◌, ◌<◌, ◌≡◌, ◌≢◌, refl, ap, ap₂, ◌∙◌, ◌⊎◌, inl, inr,
  Bool, true, false, not, List, [], ◌∷◌, ◌++◌, Option, some, max, ◌==◌, ltb, arith, length,
  length-drop, take, take-nil, drop, get_or, eq→==, ne→==, Bool-cases,
}
use potatoes.Fs.Device.Laws.{IsDevice, block_size-eq}
use potatoes.Fs.Bmap.{not_found}
use potatoes.Fs.Inodes.{MInode}
use potatoes.Fs.Inodes.Bytes.{IsDInode}
use potatoes.Fs.Inodes.Disk.Persist.{content}
use potatoes.Fs.Blocks.{Blocks, bytes_direct, get_data_block}
use potatoes.Fs.Blocks.Direct.{get_data_block-Found}
use potatoes.Fs.Io.{refuses, with_dev, write_part, fs_read, fs_write}
use potatoes.Fs.Io.Write.{
  patched, write_part-Written, written_inode, written_inode-IsDInode, write_back-Stores,
}
use potatoes.Fs.Io.Stored.{take-patched}
use potatoes.Fs.Io.Whole.{
  Mapped, fs_read-file_bytes, file_bytes, file_bytes-block, file_bytes-append,
}

-- No two positions of the file share a block.
abbrev pub Apart : MInode → ℕ → Type 0
Apart inode limit =
    (j k : ℕ)
    → j * 512 < limit
    → k * 512 < limit
    → j ≢ k
    → get_or inode.direct_pointer j 0 ≢ get_or inode.direct_pointer k 0

take-split : (m k : ℕ) (xs : List ℕ) → take m xs ++ take k (drop m xs) ≡ take (m + k) xs
take-split zero k xs = ap (λ j. take j xs) (let e : k ≡ 0 + k = omega arith in e)
take-split (suc m) k [] =
    take-nil k ∙ ap (λ j. take j []) (let e : suc (m + k) ≡ suc m + k = omega arith in e)
take-split (suc m) k (x ∷ xs) =
    ap (λ t. x ∷ t) (take-split m k xs)
    ∙ ap (λ j. take j (x ∷ xs)) (let e : suc (m + k) ≡ suc m + k = omega arith in e)

accepts_grown :
    (inode : MInode) (n at limit : ℕ) (allow : Bool)
    → 0 < n
    → at ≤ limit
    → (allow ≡ true) ⊎ (limit ≤ inode.size)
    → refuses inode n at allow ≡ false
unfolding refuses
accepts_grown inode n at limit allow some_bytes before (inl allowed) = ground arith
accepts_grown inode n at limit allow some_bytes before (inr within) = ground arith

module _ (inode : MInode) (size limit : ℕ) (allow : Bool) (time : ℕ) (ok : IsDInode (content inode))
    (inside : inode.adr ≤ size) (small : size < 2 ^ 32 - 1) (in_time : time < 2 ^ 64)
    (mapped : Mapped inode size limit) (apart : Apart inode limit)
    (direct : limit ≤ bytes_direct) where
  abbrev ptr : ℕ → ℕ
  ptr k = get_or inode.direct_pointer k 0

  -- One round: bytes go to their block.
  write_round :
      (s : Blocks) (buf : List ℕ) (at m : ℕ)
      → IsDevice s.bm.dev
      → s.bm.dev.hdsize ≡ size
      → at < limit
      → at % 512 + m ≤ 512
      → m ≤ length buf
      → (s1 s2 : Blocks) × (get_data_block s inode at allow ≡ some (s1, inode, ptr (at / 512)))
        × (write_part s1 buf (ptr (at / 512)) (at % 512) m ≡ some s2)
        × (s2.bm.dev.sector (ptr (at / 512))
            ≡ patched (s.bm.dev.sector (ptr (at / 512))) (at % 512) m buf)
        × ((j : ℕ) → j ≢ ptr (at / 512) → j ≢ inode.adr → s2.bm.dev.sector j ≡ s.bm.dev.sector j)
        × IsDevice s2.bm.dev
        × (s2.bm.dev.hdsize ≡ size)
  write_round s buf at m device same before within room =
      let p = ptr (at / 512) in
      let (e, set_p, other, on_disk) = mapped (at / 512) (omega arith) in
      let (s1, ran, kept, stores, others, same1, valid) =
        (get_data_block-Found s inode at (omega arith) p e device (omega arith) ok).0 allow set_p in
      let (dev2, wrote, written) =
        write_part-Written s1 buf p (at % 512) m valid (omega (arith, same1)) within room in
      (
        s1,
        with_dev s1 dev2,
        ran,
        wrote,
        written.at p ∙ rw (eq→== p p refl) (ap (λ o. patched o (at % 512) m buf) (others p other)),
        λ j away far. written.at j ∙ rw (ne→== j p away) (others j far),
        written.valid,
        written.same_size ∙ (same1 ∙ same),
      )

  -- The bytes of a patched block.
  patched_bytes :
      (sector : ℕ → List ℕ) (old buf : List ℕ) (at m : ℕ)
      → length old ≡ 512
      → length (sector (ptr (at / 512))) ≡ 512
      → sector (ptr (at / 512)) ≡ patched old (at % 512) m buf
      → at % 512 + m ≤ 512
      → m ≤ length buf
      → file_bytes sector inode.direct_pointer at m ≡ take m buf
  patched_bytes sector old buf at m old_size whole e within room =
      ap (λ a. file_bytes sector inode.direct_pointer a m)
        (let q : at ≡ at / 512 * 512 + at % 512 = omega arith in q)
      ∙ (file_bytes-block sector inode.direct_pointer (at / 512) (at % 512) m within whole
          ∙ (ap (λ b. take m (drop (at % 512) b)) e
              ∙ take-patched old (at % 512) m buf (omega arith) room))

  -- Block `j` belongs to no position of the file between `at` and `limit`.
  abbrev pub Elsewhere : ℕ → ℕ → Type 0
  Elsewhere at j = (k : ℕ) → k * 512 < limit → at < (k + 1) * 512 → j ≢ ptr k

  -- What a write to part of the file does.
  abbrev pub Writes : Blocks → Option (Blocks × MInode × ℕ) → List ℕ → ℕ → ℕ → Type 0
  Writes s result buf n at =
      (s' : Blocks) × (result ≡ some (s', written_inode inode n at time, n))
      × (file_bytes s'.bm.dev.sector inode.direct_pointer at n ≡ take n buf)
      × ((j : ℕ) → j ≢ inode.adr → Elsewhere at j → s'.bm.dev.sector j ≡ s.bm.dev.sector j)
      × IsDevice s'.bm.dev
      × (s'.bm.dev.hdsize ≡ size)

  -- A write of at least one byte to part of a file within its direct pointers, whose blocks are all
  -- set, apart from each other and none the inode's own, does not fault, with any more fuel than
  -- bytes, where the file may grow or does not have to. It writes all bytes, over the edges of blocks:
  -- the bytes of the file at these positions are those of the buffer. The inode has the time of the
  -- call and reaches to the end of the write at least. No block changes but the inode's and those of
  -- the positions.
  pub fs_write-file_bytes :
      (fuel : ℕ) (s : Blocks) (buf : List ℕ) (n at : ℕ)
      → 0 < n
      → n < fuel
      → IsDevice s.bm.dev
      → s.bm.dev.hdsize ≡ size
      → at + n ≡ limit
      → (allow ≡ true) ⊎ (limit ≤ inode.size)
      → n ≤ length buf
      → Writes s (fs_write fuel s inode buf n at allow time) buf n at
  unfolding fs_write
  fs_write-file_bytes zero s buf n at some_bytes enough device same end grows room =
      absurd (omega arith)
  fs_write-file_bytes (suc fuel) s buf zero at some_bytes enough device same end grows room =
      absurd (omega arith)
  fs_write-file_bytes (suc fuel) s buf (suc n) at some_bytes enough device same end grows room =
      let p = ptr (at / 512) in
      let m = 512 - at % 512 in
      let (e, set_p, other, on_disk) = mapped (at / 512) (omega arith) in
      let found : (p == not_found) ≡ false = ne→== p not_found (omega arith) in
      let accepted = accepts_grown inode (suc n) at limit allow (omega arith) (omega arith) grows in
      elim (Bool-cases (not (ltb 512 ((at % 512 + suc n) % 2 ^ 32)))) [
        | inl inner ↦
            let (s1, s2, ran, wrote, block, others, valid, same2) =
              write_round s buf at (suc n) device same (omega arith) (ground arith) room in
            let (s3, back, kept3, stores3, others3, same3, valid3) =
              write_back-Stores s2 inode (suc n) at time valid (omega (arith, same2)) (omega arith)
                in_time ok in
            (
              s3,
              rw (accepted, ran, found, inner, wrote) back,
              patched_bytes s3.bm.dev.sector (s.bm.dev.sector p) buf at (suc n)
                  (device.sectors p ∙ block_size-eq) (valid3.sectors p ∙ block_size-eq)
                  (others3 p other ∙ block) (ground arith) room,
              λ j far away.
                  others3 j far ∙ others j (away (at / 512) (omega arith) (omega arith)) far,
              valid3,
              same3 ∙ same2,
            )
        | inr edge ↦
            let past : m < suc n = ground arith in
            let (s1, s2, ran, wrote, block, others, valid, same2) =
              write_round s buf at m device same (omega arith) (omega arith) (omega arith) in
            let (s3, more, bytes3, others3, valid3, same3) =
              fs_write-file_bytes fuel s2 (drop m buf) (suc n - m) ((at + m) % 2 ^ 32) (omega arith)
                (omega arith) valid same2 (omega arith) grows
                (omega (arith, length-drop {0} m buf)) in
            (
              s3,
              rw (accepted, ran, found, edge, wrote, more)
                  (ap₂
                    (λ z c.
                      some (s3, record inode { size = max inode.size z; modify_ts = time }, c))
                    (let q : (at + m) % 2 ^ 32 + (suc n - m) ≡ at + suc n = omega arith in q)
                    (let q : m + (suc n - m) ≡ suc n = omega arith in q)),
              ap (file_bytes s3.bm.dev.sector inode.direct_pointer at)
                    (let q : suc n ≡ m + (suc n - m) = omega arith in q)
                  ∙ (file_bytes-append s3.bm.dev.sector inode.direct_pointer at m (suc n - m)
                      ∙ (ap₂ ◌++◌
                            (patched_bytes s3.bm.dev.sector (s.bm.dev.sector p) buf at m
                              (device.sectors p ∙ block_size-eq) (valid3.sectors p ∙ block_size-eq)
                              (others3 p other
                                  (λ k h l. apart (at / 512) k (omega arith) h (omega arith))
                                ∙ block)
                              (omega arith) (omega arith))
                            (ap
                                (λ a.
                                  file_bytes s3.bm.dev.sector inode.direct_pointer a (suc n - m))
                                (let q : at + m ≡ (at + m) % 2 ^ 32 = omega arith in q)
                              ∙ bytes3)
                          ∙ (take-split m (suc n - m) buf
                              ∙ ap (λ k. take k buf)
                                  (let q : m + (suc n - m) ≡ suc n = omega arith in q)))),
              λ j far away.
                  others3 j far (λ k h l. away k h (omega arith))
                  ∙ others j (away (at / 512) (omega arith) (omega arith)) far,
              valid3,
              same3,
            )
      ]

  -- A write of at least one byte to part of a file within its direct pointers, whose blocks are all
  -- set before the write, on the disk, apart from each other and none the inode's own, where the file
  -- may grow or does not have to, does not fault, with any more fuel than bytes, and writes all bytes.
  -- `fs_read` of the same range, with the inode and the disk that the write leaves, then gives the
  -- bytes back, over the edges of blocks, at the front of any buffer that is large enough, and keeps
  -- the rest of the buffer. A write for which a block has to be allocated is not covered.
  pub fs_read-fs_write_over_edges :
      (fuel : ℕ) (s : Blocks) (buf target : List ℕ) (n at : ℕ)
      → 0 < n
      → n < fuel
      → IsDevice s.bm.dev
      → s.bm.dev.hdsize ≡ size
      → at + n ≡ limit
      → (allow ≡ true) ⊎ (limit ≤ inode.size)
      → n ≤ length buf
      → n ≤ length target
      → (s' s'' : Blocks) × (fs_write fuel s inode buf n at allow time
          ≡ some (s', written_inode inode n at time, n))
        × (fs_read fuel s' target (written_inode inode n at time) n at allow
            ≡ some (s'', written_inode inode n at time, take n buf ++ drop n target, n))
  fs_read-fs_write_over_edges fuel s buf target n at some_bytes enough device same end grows room
        fits =
      let (s', ran, bytes, others, valid, same') =
        fs_write-file_bytes fuel s buf n at some_bytes enough device same end grows room in
      let written = written_inode inode n at time in
      let (s'', read, left) =
        fs_read-file_bytes written s'.bm.dev.sector size limit allow
          (written_inode-IsDInode inode n at time (omega arith) in_time ok) inside small fuel s'
          target n at enough
          (record { device = valid; same_size = same'; sectors = λ j away. refl }) mapped end
          (omega arith) direct fits in
      (s', s'', ran, read ∙ ap (λ b. some (s'', written, b ++ drop n target, n)) bytes)
