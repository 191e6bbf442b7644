-- ===== src/Fs/Io/Whole.antt =====
-- Reading over the edges of blocks.
use potatoes.Prelude.{
  ℕ, zero, suc, ◌+◌, ◌-◌, ◌*◌, ◌/◌, ◌%◌, ◌^◌, ◌≤◌, ◌<◌, ◌≡◌, ◌≢◌, refl, sym, ap, ap₂, ◌∙◌, inl, inr,
  Bool, true, false, not, ◌||◌, ◌&&◌, List, [], ◌∷◌, ◌++◌, Option, some, ◌==◌, ltb, arith, length,
  length-append, length-drop, take, drop, get_elem?, get_or, drop-nil, append_assoc, ne→==,
  Bool-cases,
}
use potatoes.Fs.Device.Laws.{IsDevice, block_size-eq}
use potatoes.Fs.Bmap.{not_found}
use potatoes.Fs.Inodes.{MInode}
use potatoes.Fs.Inodes.Bytes.{IsDInode}
use potatoes.Fs.Inodes.Disk.Persist.{content}
use potatoes.Fs.Blocks.{Blocks, bytes_direct, get_data_block}
use potatoes.Fs.Blocks.Direct.{get_data_block-Found}
use potatoes.Fs.Io.{read_part, fs_read}
use potatoes.Fs.Io.Read.{accepts, read_part-take}

or-true : (b : Bool) → (b || true) ≡ true
or-true true = refl
or-true false = refl

-- The bytes of a file from a position on, by its direct pointers and the sectors of the disk.
pub file_bytes : (ℕ → List ℕ) → List ℕ → ℕ → ℕ → List ℕ
file_bytes sector ps at zero = []
file_bytes sector ps at (suc n) =
    get_or (sector (get_or ps (at / 512) 0)) (at % 512) 0 ∷ file_bytes sector ps (suc at) n

file_bytes-zero : (sector : ℕ → List ℕ) (ps : List ℕ) (at : ℕ) → file_bytes sector ps at 0 ≡ []
unfolding file_bytes
file_bytes-zero sector ps at = refl

pub file_bytes-append :
    (sector : ℕ → List ℕ) (ps : List ℕ) (at m n : ℕ)
    → file_bytes sector ps at (m + n) ≡ file_bytes sector ps at m ++ file_bytes sector ps (at + m) n
unfolding file_bytes
file_bytes-append sector ps at zero n =
    ap₂ (file_bytes sector ps) (let e : at ≡ at + 0 = omega arith in e)
      (let e : 0 + n ≡ n = omega arith in e)
file_bytes-append sector ps at (suc m) n =
    ap (file_bytes sector ps at) (let e : suc m + n ≡ suc (m + n) = omega arith in e)
    ∙ ap (λ t. get_or (sector (get_or ps (at / 512) 0)) (at % 512) 0 ∷ t)
        (file_bytes-append sector ps (suc at) m n
          ∙ ap (λ k. file_bytes sector ps (suc at) m ++ file_bytes sector ps k n)
              (let e : suc at + m ≡ at + suc m = omega arith in e))

length-file_bytes :
    (sector : ℕ → List ℕ) (ps : List ℕ) (at n : ℕ) → length (file_bytes sector ps at n) ≡ n
unfolding file_bytes
length-file_bytes sector ps at zero = refl
length-file_bytes sector ps at (suc n) = ap suc (length-file_bytes sector ps (suc at) n)

take-drop-suc :
    (xs : List ℕ) (o m : ℕ)
    → o < length xs
    → take (suc m) (drop o xs) ≡ get_or xs o 0 ∷ take m (drop (suc o) xs)
take-drop-suc [] o m h = absurd (omega arith)
take-drop-suc (x ∷ xs) zero m h = refl
take-drop-suc (x ∷ xs) (suc o) m h = take-drop-suc xs o m (omega arith)

-- Within one block they are a part of it.
pub file_bytes-block :
    (sector : ℕ → List ℕ) (ps : List ℕ) (k o n : ℕ)
    → o + n ≤ 512
    → length (sector (get_or ps k 0)) ≡ 512
    → file_bytes sector ps (k * 512 + o) n ≡ take n (drop o (sector (get_or ps k 0)))
unfolding file_bytes
file_bytes-block sector ps k o zero h size = refl
file_bytes-block sector ps k o (suc n) h size =
    let block = sector (get_or ps k 0) in
    ap₂ ◌∷◌
      (ap₂ (λ i j. get_or (sector (get_or ps i 0)) j 0)
        (let e : (k * 512 + o) / 512 ≡ k = omega arith in e)
        (let e : (k * 512 + o) % 512 ≡ o = omega arith in e))
      (ap (λ a. file_bytes sector ps a n)
          (let e : suc (k * 512 + o) ≡ k * 512 + suc o = omega arith in e)
        ∙ file_bytes-block sector ps k (suc o) n (omega arith) size)
    ∙ sym (take-drop-suc block o n (omega arith))

take-exact : (xs ys : List ℕ) (m : ℕ) → length xs ≡ m → take m (xs ++ ys) ≡ xs
take-exact [] ys zero e = refl
take-exact [] ys (suc m) e = absurd (omega arith)
take-exact (x ∷ xs) ys zero e = absurd (omega arith)
take-exact (x ∷ xs) ys (suc m) e = ap (λ t. x ∷ t) (take-exact xs ys m (omega arith))

drop-exact : (xs ys : List ℕ) (m : ℕ) → length xs ≡ m → drop m (xs ++ ys) ≡ ys
drop-exact [] ys zero e = refl
drop-exact [] ys (suc m) e = absurd (omega arith)
drop-exact (x ∷ xs) ys zero e = absurd (omega arith)
drop-exact (x ∷ xs) ys (suc m) e = drop-exact xs ys m (omega arith)

drop-drop : (xs : List ℕ) (m k : ℕ) → drop k (drop m xs) ≡ drop (m + k) xs
drop-drop xs zero k = ap (λ j. drop j xs) (let e : k ≡ 0 + k = omega arith in e)
drop-drop [] (suc m) k =
    drop-nil k ∙ ap (λ j. drop j []) (let e : suc (m + k) ≡ suc m + k = omega arith in e)
drop-drop (x ∷ xs) (suc m) k =
    drop-drop xs m k
    ∙ ap (λ j. drop j (x ∷ xs)) (let e : suc (m + k) ≡ suc m + k = omega arith in e)

-- The first part of a read and the rest make up the whole.
pub joined :
    (sector : ℕ → List ℕ) (ps buf : List ℕ) (at m k : ℕ)
    → take m (file_bytes sector ps at m ++ drop m buf)
        ++ (file_bytes sector ps (at + m) k
            ++ drop k (drop m (file_bytes sector ps at m ++ drop m buf)))
      ≡ file_bytes sector ps at (m + k) ++ drop (m + k) buf
joined sector ps buf at m k =
    let front = file_bytes sector ps at m in
    let size = length-file_bytes sector ps at m in
    ap₂ (λ a b. a ++ (file_bytes sector ps (at + m) k ++ drop k b))
      (take-exact front (drop m buf) m size) (drop-exact front (drop m buf) m size)
    ∙ (sym (append_assoc front (file_bytes sector ps (at + m) k) (drop k (drop m buf)))
        ∙ ap₂ ◌++◌ (sym (file_bytes-append sector ps at m k)) (drop-drop buf m k))

-- The disk has the size and, but for the block of the inode, the sectors.
pub record OnDisk (inode : MInode) (sector : ℕ → List ℕ) (size : ℕ) (s : Blocks) : Type 0 where
  pub device : IsDevice s.bm.dev
  pub same_size : s.bm.dev.hdsize ≡ size
  pub sectors : (j : ℕ) → j ≢ inode.adr → s.bm.dev.sector j ≡ sector j

-- The file has blocks up to `limit`, other than that of the inode.
abbrev pub Mapped : MInode → ℕ → ℕ → Type 0
Mapped inode size limit =
    (k : ℕ)
    → k * 512 < limit
    → (get_elem? inode.direct_pointer k ≡ some (get_or inode.direct_pointer k 0))
      × (get_or inode.direct_pointer k 0 ≢ 0)
      × (get_or inode.direct_pointer k 0 ≢ inode.adr)
      × (get_or inode.direct_pointer k 0 ≤ size)

module _ (inode : MInode) (sector : ℕ → List ℕ) (size limit : ℕ) (allow : Bool)
    (ok : IsDInode (content inode)) (inside : inode.adr ≤ size) (small : size < 2 ^ 32 - 1) where
  -- One round: the block, and bytes of it.
  read_round :
      (s : Blocks) (buf : List ℕ) (at m : ℕ)
      → OnDisk inode sector size s
      → Mapped inode size limit
      → at < limit
      → limit ≤ bytes_direct
      → at % 512 + m ≤ 512
      → m ≤ length buf
      → (s1 s2 : Blocks) × (get_data_block s inode at allow
          ≡ some (s1, inode, get_or inode.direct_pointer (at / 512) 0))
        × (read_part s1 buf (get_or inode.direct_pointer (at / 512) 0) (at % 512) m
            ≡ some (s2, file_bytes sector inode.direct_pointer at m ++ drop m buf))
        × OnDisk inode sector size s2
  read_round s buf at m d mapped before direct within room =
      let p = get_or inode.direct_pointer (at / 512) 0 in
      let (e, set_p, other, on_disk) = mapped (at / 512) (omega arith) in
      let (s1, ran, kept, stores, others, same, valid) =
        (get_data_block-Found s inode at (omega arith) p e d.device (omega (arith, d.same_size))
            ok).0
          allow set_p in
      let (s2, read, keeps, same2, valid2) =
        read_part-take s1 buf p (at % 512) m valid (omega (arith, same, d.same_size)) within room in
      let block : s1.bm.dev.sector p ≡ sector p = others p other ∙ d.sectors p other in
      let whole : length (sector p) ≡ 512 =
        ap length (sym block) ∙ (valid.sectors p ∙ block_size-eq) in
      let part =
        ap (λ a. file_bytes sector inode.direct_pointer a m)
          (let q : at ≡ at / 512 * 512 + at % 512 = omega arith in q)
        ∙ file_bytes-block sector inode.direct_pointer (at / 512) (at % 512) m within whole in
      (
        s1,
        s2,
        ran,
        read
            ∙ ap (λ b. some (s2, b ++ drop m buf))
                (ap (λ w. take m (drop (at % 512) w)) block ∙ sym part),
        record {
          device = valid2;
          same_size = same2 ∙ (same ∙ d.same_size);
          sectors = λ j away. keeps j ∙ (others j away ∙ d.sectors j away);
        },
      )

  -- What a read of part of the file returns.
  abbrev pub Reads : Option (Blocks × MInode × List ℕ × ℕ) → List ℕ → ℕ → ℕ → Type 0
  Reads result buf n at =
      (s' : Blocks) × (result
        ≡ some (s', inode, file_bytes sector inode.direct_pointer at n ++ drop n buf, n))
      × OnDisk inode sector size s'

  -- A read of part of a file within its direct pointers, whose blocks are all set and none the inode's
  -- own, does not fault, with any more fuel than bytes. It reads all bytes asked for, over the edges
  -- of blocks, to the front of the buffer: each is the byte of the file at its position. The rest of
  -- the buffer, the inode and all blocks but that of the inode stay.
  pub fs_read-file_bytes :
      (fuel : ℕ) (s : Blocks) (buf : List ℕ) (n at : ℕ)
      → n < fuel
      → OnDisk inode sector size s
      → Mapped inode size limit
      → at + n ≡ limit
      → limit ≤ inode.size
      → limit ≤ bytes_direct
      → n ≤ length buf
      → Reads (fs_read fuel s buf inode n at allow) buf n at
  unfolding fs_read
  fs_read-file_bytes zero s buf n at enough d mapped end within direct room = absurd (omega arith)
  fs_read-file_bytes (suc fuel) s buf zero at enough d mapped end within direct room = (
    s,
    rw (or-true (ltb inode.size at && not allow)) (
        ap (λ b. some (s, inode, b ++ buf, 0))
          (sym (file_bytes-zero sector inode.direct_pointer at))),
    d,
  )
  fs_read-file_bytes (suc fuel) s buf (suc n) at enough d mapped end within direct room =
      let p = get_or inode.direct_pointer (at / 512) 0 in
      let m = 512 - at % 512 in
      let found : (p == not_found) ≡ false =
        ne→== p not_found (let h = (mapped (at / 512) (omega arith)).3 in omega arith) in
      let accepted = accepts inode (suc n) at allow (omega arith) (omega arith) in
      elim (Bool-cases (not (ltb 512 ((at % 512 + suc n) % 2 ^ 32)))) [
        | inl inner ↦
            let (s1, s2, ran, read, d2) =
              read_round s buf at (suc n) d mapped (omega arith) direct (ground arith) room in
            (s2, rw (accepted, ran, found, inner, read) refl, d2)
        | inr edge ↦
            let past : m < suc n = ground arith in
            let (s1, s2, ran, read, d2) =
              read_round s buf at m d mapped (omega arith) direct (omega arith) (omega arith) in
            let buf2 = file_bytes sector inode.direct_pointer at m ++ drop m buf in
            let (s3, more, d3) =
              fs_read-file_bytes fuel s2 (drop m buf2) (suc n - m) ((at + m) % 2 ^ 32) (omega arith)
                d2 mapped (omega arith) within direct
                (omega (
                  arith,
                  length-drop {0} m buf2,
                  length-append {0} (file_bytes sector inode.direct_pointer at m) (drop m buf),
                  length-file_bytes sector inode.direct_pointer at m,
                  length-drop {0} m buf,
                )) in
            (
              s3,
              rw (accepted, ran, found, edge, read, more)
                  (ap
                      (λ a. some (
                        s3,
                        inode,
                        take m buf2
                            ++ (file_bytes sector inode.direct_pointer a (suc n - m)
                                ++ drop (suc n - m) (drop m buf2)),
                        m + (suc n - m),
                      ))
                      (let e : (at + m) % 2 ^ 32 ≡ at + m = omega arith in e)
                    ∙ (ap (λ b. some (s3, inode, b, m + (suc n - m)))
                          (joined sector inode.direct_pointer buf at m (suc n - m))
                        ∙ ap
                            (λ k. some (
                              s3,
                              inode,
                              file_bytes sector inode.direct_pointer at k ++ drop k buf,
                              k,
                            ))
                            (let e : m + (suc n - m) ≡ suc n = omega arith in e))),
              d3,
            )
      ]
