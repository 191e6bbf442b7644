-- ===== src/Fs/Bmap/Tests.antt =====
-- The theorems on the bitmap at a disk of 64 blocks.
use potatoes.Prelude.{
  ℕ, zero, suc, ◌/◌, ◌≤◌, ◌<◌, ◌≡◌, refl, ◌⊎◌, inr, some, true, arith, length, get_or,
  get_or-replicate, ap, false, replicate, length-replicate, ltb, ◌∙◌, sym, take-all, none,
}
use potatoes.Fs.Device.{block_size}
use potatoes.Fs.Device.Tests.{disk, disk-IsDevice}
use potatoes.Fs.Device.Laws.{zeros, block_size-eq}
use potatoes.Fs.Bmap.{Bmap, byte_allocated, mark_block, alloc_block, init_bmap, load_bmap}
use potatoes.Fs.Bmap.Mark.{allocated, IsBmap, Synced, Marked, mark_block-Marked}
use potatoes.Fs.Bmap.Free.{AllAllocated, Taken, alloc_block_lem}
use potatoes.Fs.Bmap.Format.{init_bmap-allocated}
use potatoes.Fs.Bmap.Load.{load_bmap-allocated}

-- A bitmap in which no block is allocated.
abbrev pub empty : Bmap
empty = record { bmap = zeros; num_bmap_blocks = 1; first_data_block = 4; dev = disk }

zero_slots : (n i : ℕ) → get_or (replicate n 0) i 0 < 256
zero_slots zero i = omega arith
zero_slots (suc n) zero = omega arith
zero_slots (suc n) (suc i) = zero_slots n i

pub zeros_size : length zeros ≡ 512
zeros_size = length-replicate block_size 0 ∙ block_size-eq

pub empty-IsBmap : IsBmap empty
empty-IsBmap = record {
  device = disk-IsDevice;
  count = refl;
  fits = omega arith;
  memory = omega (arith, zeros_size);
  bytes = zero_slots block_size;
}

empty-Synced : Synced empty
empty-Synced zero h = sym (take-all zeros block_size (length-replicate block_size 0))
empty-Synced (suc j) h = absurd (omega arith)

byte_of_40 : (n : ℕ) → 5 < n → get_or {A = ℕ} (replicate n 0) 5 0 ≡ 0
byte_of_40 n h = get_or-replicate n 0 5 0 h

pub free_40 : allocated empty 40 ≡ false
unfolding byte_allocated
free_40 = ap (λ b. byte_allocated b 0) (byte_of_40 block_size (omega (arith, block_size-eq)))

mark_block-Marked_example :
    (s : Bmap) × (mark_block empty 21 true ≡ some s) × Marked empty 21 true s
mark_block-Marked_example = mark_block-Marked empty-IsBmap 21 (omega arith) true

alloc_block_lem_example :
    Taken empty 21 ⊎ (AllAllocated empty 21 64 × (alloc_block empty 21 ≡ none))
alloc_block_lem_example = alloc_block_lem empty-IsBmap 21 (omega arith) (omega (arith, zeros_size))

init_bmap-allocated_example :
    ((length zeros < 512) × (init_bmap empty (some zeros) ≡ none))
    ⊎ ((s : Bmap) × (init_bmap empty (some zeros) ≡ some s)
        × IsBmap s
        × ((j : ℕ) → j < 64 → allocated s j ≡ ltb j 4))
init_bmap-allocated_example =
    init_bmap-allocated empty zeros disk-IsDevice (omega arith) (omega arith)
      (zero_slots block_size) (inr (omega (arith, zeros_size)))

load_bmap-allocated_example :
    ((512 ≤ length zeros)
      × (s : Bmap) × (load_bmap empty (some zeros) ≡ some s)
      × IsBmap s
      × ((b : ℕ) → b < 64 → allocated s b ≡ allocated empty b)
      × ((b : ℕ) → s.dev.sector b ≡ zeros))
    ⊎ ((length zeros < 512) × (64 / 8 < 512) × (load_bmap empty (some zeros) ≡ none))
load_bmap-allocated_example =
    load_bmap-allocated zeros empty-IsBmap empty-Synced (omega arith) (zero_slots block_size)
