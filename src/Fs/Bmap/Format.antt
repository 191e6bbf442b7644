-- ===== src/Fs/Bmap/Format.antt =====
-- The bitmap of a new file system, and the way of the bitmap to the disk and back.
use potatoes.Prelude.{
  ℕ, zero, suc, ◌+◌, ◌-◌, ◌*◌, ◌/◌, ◌%◌, ◌^◌, ◌≤◌, ◌<◌, ◌≡◌, ◌⊎◌, inl, inr, ◌∙◌, refl, ap, List,
  ◌++◌, some, none, true, false, Bool, ◌==◌, get_elem?, set, length-set, if◌then◌else◌, arith,
  length, get_or, get_or-append, get_or-drop, get_or-replicate, ltb→lt, drop, replicate,
  length-replicate, length-append, length-drop, Bool-cases, ltb, ne→==,
}
use native.Mathlib.Decide.{ℕ_discrete, dec_lt}
use potatoes.Klib.Memory.{bzero-replicate, bzero-short, >>=-none}
use potatoes.Fs.Device.{block_size}
use potatoes.Fs.Device.Laws.{IsDevice, block_size-eq, wrt_block-short}
use potatoes.Fs.Bmap.{
  Bmap, root_inode_block, byte_allocated, mark_byte, mark_block, malloc_bmap, mark_from, init_bmap,
}
use potatoes.Fs.Bmap.Mark.{allocated, IsBmap, mark_block-Marked}

-- `mark_from` marks its blocks and no other.
mark_from-allocated :
    (n i : ℕ) {s : Bmap}
    → IsBmap s
    → i + n ≤ s.dev.hdsize
    → (s' : Bmap) × (mark_from n i s ≡ some s')
      × IsBmap s'
      × (s'.dev.hdsize ≡ s.dev.hdsize)
      × ((j : ℕ) → i ≤ j → j < i + n → allocated s' j ≡ true)
      × ((j : ℕ) → (j < i) ⊎ (i + n ≤ j) → allocated s' j ≡ allocated s j)
unfolding mark_from
mark_from-allocated zero i {s} m h = (s, refl, m, refl, λ j p q. absurd (omega arith), λ j p. refl)
mark_from-allocated (suc n) i {s} m h =
    let (s1, marked, change) = mark_block-Marked m i (omega arith) true in
    let (s2, ran, valid, size, inside, outside) =
      mark_from-allocated n (i + 1) {s = s1} change.valid (omega (arith, change.same_hdsize)) in
    (
      s2,
      rw marked ran,
      valid,
      size ∙ change.same_hdsize,
      λ j p q. elim (ℕ_discrete j i) [
        | yes e ↦ outside j (inl (omega arith)) ∙ ground (arith, change.bits j)
        | no ne ↦ inside j (omega arith) (omega arith)
      ],
      λ j p. outside j (omega arith) ∙ ground (arith, change.bits j),
    )

zero_byte : (b : ℕ) → byte_allocated 0 b ≡ false
unfolding byte_allocated
zero_byte b = let e : 0 * 2 ^ b ≡ 0 = omega arith in rw e refl

-- The bitmap that `malloc_bmap` leaves: cleared over the size of the block it asked for.
pub cleared : List ℕ → ℕ → List ℕ
cleared m n = replicate n 0 ++ drop n m

pub cleared-slot :
    (m : List ℕ) (n i : ℕ) → get_or (cleared m n) i 0 ≡ (if ltb i n then 0 else get_or m i 0)
unfolding cleared
cleared-slot m n i = elim (Bool-cases (ltb i n)) [
  | inl inside ↦ ground (
    arith,
    get_or-append (replicate n 0) (drop n m) i 0,
    length-replicate {A = ℕ} n 0,
    get_or-replicate {A = ℕ} n 0 i 0 (omega (arith, ltb→lt i n inside)),
  )
  | inr outside ↦
      let there : n + (i - n) ≡ i = ground arith in
      ground (
        arith,
        get_or-append (replicate n 0) (drop n m) i 0,
        length-replicate {A = ℕ} n 0,
        get_or-drop n m (i - n) 0,
        ap (λ t. get_or m t 0) there,
      )
]

pub length-cleared : (m : List ℕ) (n : ℕ) → n ≤ length m → length (cleared m n) ≡ length m
unfolding cleared
length-cleared m n h = omega (
  arith,
  length-append {0} (replicate n 0) (drop n m),
  length-replicate {0} {A = ℕ} n 0,
  length-drop {0} n m,
)

-- What `malloc_bmap` leaves where `mallocn` gave the memory `mem`.
abbrev pub blank : Bmap → List ℕ → Bmap
blank s mem = record s {
  bmap = cleared mem (s.dev.hdsize / 8);
  num_bmap_blocks = s.dev.hdsize / 8 / 512 + 1;
  first_data_block = root_inode_block + (s.dev.hdsize / 8 / 512 + 1) + 1;
}

pub malloc_bmap-blank :
    (s : Bmap) (mem : List ℕ)
    → s.dev.hdsize / 8 ≤ length mem
    → malloc_bmap s (some mem) ≡ some (blank s mem, s.dev.hdsize / 8)
unfolding malloc_bmap cleared
malloc_bmap-blank s mem h = rw (bzero-replicate mem (s.dev.hdsize / 8) h) refl

pub malloc_bmap-short :
    (s : Bmap) (mem : List ℕ) → length mem < s.dev.hdsize / 8 → malloc_bmap s (some mem) ≡ none
unfolding malloc_bmap
malloc_bmap-short s mem h = rw (bzero-short mem (s.dev.hdsize / 8) h) refl

mark_block-short :
    (s : Bmap) (flag : Bool) → length s.bmap < block_size → mark_block s 0 flag ≡ none
unfolding mark_block
mark_block-short s flag h = >>=-none (get_elem? s.bmap 0) _ (λ byte.
    let bytes = set s.bmap 0 (mark_byte byte 0 flag) in
    let short =
      wrt_block-short s.dev 3 bytes block_size
        (omega (arith, h, length-set {0} s.bmap 0 (mark_byte byte 0 flag))) in
    elim (Bool-cases (ltb 0 (length s.bmap))) [
      | inl some_bytes ↦ rw (some_bytes, short) refl
      | inr no_bytes ↦ rw no_bytes refl
    ])

mark_from-short : (n : ℕ) (s : Bmap) → 0 < n → length s.bmap < block_size → mark_from n 0 s ≡ none
unfolding mark_from
mark_from-short zero s some_blocks h = absurd (omega arith)
mark_from-short (suc n) s some_blocks h = rw (mark_block-short s true h) refl

init_bmap-short :
    (s : Bmap) (mem : List ℕ) → length mem < block_size → init_bmap s (some mem) ≡ none
unfolding init_bmap
init_bmap-short s mem h = elim (dec_lt (length mem) (s.dev.hdsize / 8)) [
  | yes none_left ↦ rw (malloc_bmap-short s mem none_left) refl
  | no cleared_all ↦ elim (Bool-cases (s.dev.hdsize / 8 == 0)) [
    | inl no_size ↦ rw (malloc_bmap-blank s mem (omega arith), no_size) refl
    | inr size ↦
        rw (malloc_bmap-blank s mem (omega arith), size)
          (mark_from-short (blank s mem).first_data_block (blank s mem) (omega arith)
            (omega (arith, h, length-cleared mem (s.dev.hdsize / 8) (omega arith))))
  ]
]

module _ (s : Bmap) (dev : IsDevice s.dev) (fits : s.dev.hdsize / 8 / 512 + 4 ≤ s.dev.hdsize)
    (mem : List ℕ) (room : (s.dev.hdsize / 8 / 512 + 1) * 512 ≤ length mem)
    (bytes : (i : ℕ) → get_or mem i 0 < 256) where
  abbrev fresh : Bmap
  fresh = blank s mem

  fresh-IsBmap : IsBmap fresh
  fresh-IsBmap = record {
    device = dev;
    count = refl;
    fits = omega arith;
    memory = omega (arith, length-cleared mem (s.dev.hdsize / 8) (omega arith));
    bytes = λ i. ground (arith, cleared-slot mem (s.dev.hdsize / 8) i, bytes i);
  }

  -- The memory has room for all blocks of the bitmap.
  initialised :
      8 ≤ s.dev.hdsize
      → (s' : Bmap) × (init_bmap s (some mem) ≡ some s')
        × IsBmap s'
        × ((j : ℕ) → j < s.dev.hdsize / 8 * 8 → allocated s' j ≡ ltb j (s.dev.hdsize / 8 / 512 + 4))
  unfolding init_bmap
  initialised big =
      let (s', ran, valid, size, inside, outside) =
        mark_from-allocated fresh.first_data_block 0 {s = fresh} fresh-IsBmap (omega arith) in
      (
        s',
        rw (malloc_bmap-blank s mem (omega arith), ne→== (s.dev.hdsize / 8) 0 (omega arith)) ran,
        valid,
        λ j h. elim (dec_lt j (s.dev.hdsize / 8 / 512 + 4)) [
          | yes p ↦ inside j (omega arith) (omega arith) ∙ ground arith
          | no p ↦
              outside j (inr (omega arith))
              ∙ (ap (λ t. byte_allocated t (j % 8))
                    (ground (arith, cleared-slot mem (s.dev.hdsize / 8) (j / 8)))
                  ∙ (zero_byte (j % 8) ∙ ground arith))
        ],
      )

-- `init_bmap` into a new block of bytes, on a disk of at least 8 blocks that holds the bitmap. Where
-- the memory from the block on has room for all blocks of the bitmap, `(hdsize / 8 / 512 + 1) * 512`
-- bytes, it does not fault: of the disk blocks whose bit lies in the first `hdsize / 8` bytes, the
-- first `hdsize / 8 / 512 + 4` (the boot, super and root inode blocks and the bitmap's own) are then
-- marked as allocated, and all others are free. Where it is shorter than one block of 512 bytes, as
-- are the `hdsize / 8` bytes that `malloc_bmap` asks for on a disk of less than 4096 blocks, marking
-- goes beyond it, which is a fault. Memory of a size between these is not covered.
pub init_bmap-allocated :
    (s : Bmap) (mem : List ℕ)
    → IsDevice s.dev
    → s.dev.hdsize / 8 / 512 + 4 ≤ s.dev.hdsize
    → 8 ≤ s.dev.hdsize
    → ((i : ℕ) → get_or mem i 0 < 256)
    → (length mem < 512) ⊎ ((s.dev.hdsize / 8 / 512 + 1) * 512 ≤ length mem)
    → ((length mem < 512) × (init_bmap s (some mem) ≡ none))
      ⊎ ((s' : Bmap) × (init_bmap s (some mem) ≡ some s')
          × IsBmap s'
          × ((j : ℕ)
              → j < s.dev.hdsize / 8 * 8
              → allocated s' j ≡ ltb j (s.dev.hdsize / 8 / 512 + 4)))
init_bmap-allocated s mem dev fits big bytes (inl short) =
    inl (short, init_bmap-short s mem (omega (arith, short, block_size-eq)))
init_bmap-allocated s mem dev fits big bytes (inr room) =
    inr (initialised s dev fits mem room bytes big)
