-- ===== src/Fs/Bmap/Mark.antt =====
-- `mark_block` changes the bit of one block, in memory and on disk.
use potatoes.Prelude.{
  ℕ, zero, suc, ◌+◌, ◌*◌, ◌/◌, ◌%◌, ◌≤◌, ◌<◌, ◌≡◌, ◌≢◌, ◌⊎◌, inl, inr, ◌∙◌, sym, refl, ap, List, [],
  ◌∷◌, ◌++◌, some, Bool, ◌==◌, if◌then◌else◌, arith, length, get_or, set, store, take, drop,
  get_elem?-eq-get_or, get_or-set, length-set, length-drop, length-replicate, append-nil, drop-all,
  Bool-cases, ==→eq, ==→ne,
}
use native.Mathlib.Nat.{le_refl}
use potatoes.Fs.Device.{Device, block_size}
use potatoes.Fs.Device.Laws.{IsDevice, block_size-eq, Written, zeros, padded, wrt_block-Written}
use potatoes.Fs.Bmap.{
  Bmap, first_bmap_block, mark_byte, byte_allocated, mark_block, is_allocated_block,
}
use potatoes.Fs.Bmap.Bytes.{mark_byte-allocated, mark_byte-lt}

-- Whether the bit of block `b` is set.
abbrev pub allocated : Bmap → ℕ → Bool
allocated s b = byte_allocated (get_or s.bmap (b / 8) 0) (b % 8)

-- The part of the bitmap that belongs in its block number `j`.
abbrev pub part : List ℕ → ℕ → List ℕ
part bytes j = take block_size (drop (j * 512) bytes)

-- The bitmap has a bit for each block of the disk, and fits on the disk behind the super block.
pub record IsBmap (s : Bmap) : Type 0 where
  pub device : IsDevice s.dev
  pub count : s.num_bmap_blocks ≡ s.dev.hdsize / 8 / 512 + 1
  pub fits : s.num_bmap_blocks + 2 ≤ s.dev.hdsize
  pub memory : s.num_bmap_blocks * 512 ≤ length s.bmap
  pub bytes : (i : ℕ) → get_or s.bmap i 0 < 256

-- The blocks of the bitmap on disk hold the bitmap in memory.
abbrev pub Synced : Bmap → Type 0
Synced s = (j : ℕ) → j < s.num_bmap_blocks → s.dev.sector (first_bmap_block + j) ≡ part s.bmap j

-- `s'` is `s` but for the bit of block `b` and the block of the bitmap that holds it.
pub record Marked (s : Bmap) (b : ℕ) (flag : Bool) (s' : Bmap) : Type 0 where
  pub valid : IsBmap s'
  pub same_hdsize : s'.dev.hdsize ≡ s.dev.hdsize
  pub same_first : s'.first_data_block ≡ s.first_data_block
  pub bits : (j : ℕ) → allocated s' j ≡ (if j == b then flag else allocated s j)
  pub synced : Synced s → Synced s'
  pub others : (j : ℕ) → j ≢ first_bmap_block + b / 8 / 512 → s'.dev.sector j ≡ s.dev.sector j

-- A whole block needs no zeros behind it.
pub padded-part : (bytes : List ℕ) (k : ℕ) → padded (drop (k * 512) bytes) block_size ≡ part bytes k
padded-part bytes k =
    ap (λ t. part bytes k ++ t) (drop-all zeros block_size (length-replicate block_size 0))
    ∙ append-nil (part bytes k)

-- A write outside of a part of a list leaves the part.
part-set :
    (xs : List ℕ) (n base i v : ℕ)
    → (i < base) ⊎ (base + n ≤ i)
    → take n (drop base (set xs i v)) ≡ take n (drop base xs)
part-set [] n base i v h = refl
part-set (x ∷ xs) zero base i v h = refl
part-set (x ∷ xs) (suc n) zero zero v h = absurd (omega arith)
part-set (x ∷ xs) (suc n) zero (suc i) v h =
    ap (λ t. x ∷ t) (part-set xs n zero i v (inr (omega arith)))
part-set (x ∷ xs) (suc n) (suc base) zero v h = refl
part-set (x ∷ xs) (suc n) (suc base) (suc i) v h = part-set xs (suc n) base i v (omega arith)

module _ {s : Bmap} (m : IsBmap s) (b : ℕ) (inside : b < s.dev.hdsize) (flag : Bool) where
  abbrev byte : ℕ
  byte = get_or s.bmap (b / 8) 0

  abbrev marked : List ℕ
  marked = set s.bmap (b / 8) (mark_byte byte (b % 8) flag)

  in_bmap : b / 8 < length s.bmap
  in_bmap = omega (arith, m.memory, m.count)

  marked-allocated :
      (j : ℕ)
      → byte_allocated (get_or marked (j / 8) 0) (j % 8) ≡ (if j == b then flag else allocated s j)
  marked-allocated j = elim (Bool-cases (b / 8 == j / 8)) [
    | inl same_byte ↦
        let e : b / 8 ≡ j / 8 = ==→eq (b / 8) (j / 8) same_byte in
        let at : get_or marked (j / 8) 0 ≡ mark_byte byte (b % 8) flag = ground (arith, seen j) in
        ap (λ t. byte_allocated t (j % 8)) at
        ∙ (mark_byte-allocated flag (b % 8) (j % 8) (m.bytes (b / 8)) (omega arith) (omega arith)
            ∙ ground (arith, ap (λ t. byte_allocated (get_or s.bmap t 0) (j % 8)) e))
    | inr other_byte ↦
        let ne = ==→ne (b / 8) (j / 8) other_byte in
        let at : get_or marked (j / 8) 0 ≡ get_or s.bmap (j / 8) 0 = ground (arith, seen j) in
        ap (λ t. byte_allocated t (j % 8)) at ∙ ground arith
  ]
    where
      seen :
          (j : ℕ)
          → get_or marked (j / 8) 0
            ≡ (if b / 8 == j / 8 then mark_byte byte (b % 8) flag else get_or s.bmap (j / 8) 0)
      seen j = get_or-set s.bmap (b / 8) (j / 8) (mark_byte byte (b % 8) flag) 0 in_bmap

  abbrev home : ℕ
  home = b / 8 / 512

  long : block_size ≤ length (drop (home * 512) marked)
  long = omega (
    arith,
    block_size-eq,
    length-drop {0} (home * 512) marked,
    length-set s.bmap (b / 8) (mark_byte byte (b % 8) flag),
    m.memory,
    m.count,
  )

  stored : store s.bmap (b / 8) (mark_byte byte (b % 8) flag) ≡ some marked
  stored = ground (arith, in_bmap)

  module _ {dev' : Device}
      (w : Written s.dev
        (first_bmap_block + home)
        (padded (drop (home * 512) marked) block_size)
        dev') where
    after-Synced : Synced s → Synced (record s { bmap = marked; dev = dev' })
    after-Synced old j h = elim (Bool-cases (first_bmap_block + j == first_bmap_block + home)) [
      | inl here ↦
          let e : home ≡ j =
            omega (arith, ==→eq (first_bmap_block + j) (first_bmap_block + home) here) in
          w.at (first_bmap_block + j) ∙ (rw here (padded-part marked home) ∙ ap (part marked) e)
      | inr away ↦
          let ne = ==→ne (first_bmap_block + j) (first_bmap_block + home) away in
          w.at (first_bmap_block + j)
          ∙ (rw away (old j h)
              ∙ sym (
                  part-set s.bmap block_size (j * 512) (b / 8) (mark_byte byte (b % 8) flag)
                    (apart j ne)))
    ]
      where
        apart :
            (j : ℕ)
            → first_bmap_block + j ≢ first_bmap_block + home
            → (b / 8 < j * 512) ⊎ (j * 512 + block_size ≤ b / 8)
        apart j ne = omega (arith, block_size-eq)

    after-Marked : Marked s b flag (record s { bmap = marked; dev = dev' })
    after-Marked = record {
      valid = record {
        device = w.valid;
        count = m.count ∙ ap (λ t. t / 8 / 512 + 1) (sym w.same_size);
        fits = omega (arith, m.fits, w.same_size);
        memory = omega (arith, m.memory, length-set s.bmap (b / 8) (mark_byte byte (b % 8) flag));
        bytes = λ i. ground (
          arith,
          get_or-set s.bmap (b / 8) i (mark_byte byte (b % 8) flag) 0 in_bmap,
          m.bytes i,
          mark_byte-lt byte (b % 8) flag,
        );
      };
      same_hdsize = w.same_size;
      same_first = refl;
      bits = marked-allocated;
      synced = after-Synced;
      others = λ j ne. ground (arith, w.at j);
    }

  -- `mark_block` of a block of the disk does not fault, changes the bit of that block as asked and
  -- no other bit, keeps the bitmap on disk equal to that in memory, and writes no other block of
  -- the disk than the one that holds the bit.
  pub mark_block-Marked : (s' : Bmap) × (mark_block s b flag ≡ some s') × Marked s b flag s'
  unfolding mark_block
  mark_block-Marked =
      let (dev', ran, wrote) =
        wrt_block-Written m.device (first_bmap_block + home) (omega (arith, m.fits, m.count))
          (drop (home * 512) marked) block_size long (le_refl block_size) in
      (
        record s { bmap = marked; dev = dev' },
        rw (get_elem?-eq-get_or s.bmap (b / 8) 0 in_bmap, stored, ran) refl,
        after-Marked wrote,
      )

-- `is_allocated_block` of a block of the disk does not fault, and tells whether its bit is set.
pub is_allocated_block-allocated :
    {s : Bmap} (b : ℕ) → IsBmap s → b < s.dev.hdsize → is_allocated_block s b ≡ some (allocated s b)
unfolding is_allocated_block
is_allocated_block-allocated {s} b m inside =
    rw (get_elem?-eq-get_or s.bmap (b / 8) 0 (omega (arith, m.memory, m.count)))
