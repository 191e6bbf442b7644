-- ===== src/Fs/Bmap/Load.antt =====
-- `load_bmap` brings the bitmap back from the disk.
use potatoes.Prelude.{
  ℕ, zero, suc, ◌+◌, ◌-◌, ◌*◌, ◌/◌, ◌%◌, ◌≤◌, ◌<◌, ◌≡◌, ◌⊎◌, inl, inr, ◌∙◌, sym, refl, ap, ap₂,
  List, some, none, ◌==◌, Bool-cases, true, arith, length, get_or, get_or-drop, get_or-take, drop,
  leb, length-drop, ne→==,
}
use native.Mathlib.Nat.{le_refl}
use native.Mathlib.Decide.{dec_lt}
use potatoes.Fs.Device.{block_size}
use potatoes.Fs.Device.Laws.{IsDevice, block_size-eq, rd_block-take, rd_block-short}
use potatoes.Fs.Bmap.{Bmap, first_bmap_block, byte_allocated, load_from, load_bmap}
use potatoes.Fs.Bmap.Format.{
  cleared-slot, length-cleared, blank, malloc_bmap-blank, malloc_bmap-short,
}
use potatoes.Fs.Bmap.Overlay.{
  overlay, length-overlay, overlay-before, overlay-inside, overlay-behind,
}
use potatoes.Fs.Bmap.Mark.{allocated, part, IsBmap, Synced}

-- What `load_from` leaves: the device but for its read cache, and the bitmap's slots.
record Loaded (s : Bmap) (lo hi : ℕ) (s' : Bmap) : Type 0 where
  device : IsDevice s'.dev
  same_hdsize : s'.dev.hdsize ≡ s.dev.hdsize
  same_count : s'.num_bmap_blocks ≡ s.num_bmap_blocks
  sectors : (b : ℕ) → s'.dev.sector b ≡ s.dev.sector b
  same_length : length s'.bmap ≡ length s.bmap
  from_disk :
      (i : ℕ)
      → lo * 512 ≤ i
      → i < hi * 512
      → get_or s'.bmap i 0 ≡ get_or (s.dev.sector (first_bmap_block + i / 512)) (i % 512) 0
  others : (i : ℕ) → (i < lo * 512) ⊎ (hi * 512 ≤ i) → get_or s'.bmap i 0 ≡ get_or s.bmap i 0

load_from-Loaded :
    (n j : ℕ) {s : Bmap}
    → IsDevice s.dev
    → (j + n) * 512 ≤ length s.bmap
    → j + n + 2 ≤ s.dev.hdsize
    → (s' : Bmap) × (load_from n j s ≡ some s') × Loaded s j (j + n) s'
unfolding load_from
load_from-Loaded zero j {s} v h f = (
  s,
  refl,
  record {
    device = v;
    same_hdsize = refl;
    same_count = refl;
    sectors = λ b. refl;
    same_length = refl;
    from_disk = λ i p q. absurd (omega arith);
    others = λ i p. refl;
  },
)
load_from-Loaded (suc n) j {s} v h f =
    let (s', ran, rest) =
      load_from-Loaded n (j + 1) {s = next} next-IsDevice (omega (arith, kept)) (omega arith) in
    (
      s',
      rw
          (
            rd_block-take v (first_bmap_block + j) (omega arith) (drop (j * 512) s.bmap) block_size
                long (le_refl block_size),
            starts,
          )
          ran,
      record {
        device = rest.device;
        same_hdsize = rest.same_hdsize;
        same_count = rest.same_count;
        sectors = rest.sectors;
        same_length = rest.same_length ∙ kept;
        from_disk = λ i p q. elim (dec_lt i ((j + 1) * 512)) [
          | yes here ↦ rest.others i (inl here) ∙ read_here i p here
          | no later ↦ rest.from_disk i (omega arith) (omega arith)
        ];
        others = λ i p. rest.others i (omega arith) ∙ spared i (omega arith);
      },
    )
  where
    sector : List ℕ
    sector = s.dev.sector (first_bmap_block + j)

    room : j * 512 + block_size ≤ length s.bmap
    room = omega (arith, block_size-eq)

    full : block_size ≤ length sector
    full = omega (arith, v.sectors (first_bmap_block + j))

    long : block_size ≤ length (drop (j * 512) s.bmap)
    long = omega (arith, block_size-eq, length-drop {0} (j * 512) s.bmap)

    starts : leb (j * 512) (length s.bmap) ≡ true
    starts = ground arith

    next : Bmap
    next = record s {
      bmap = overlay s.bmap sector (j * 512) block_size room full;
      dev = record s.dev {
        read_cache = record { block_nr = first_bmap_block + j; cache = sector };
      };
    }

    next-IsDevice : IsDevice next.dev
    next-IsDevice = record {
      sectors = v.sectors;
      read_size = v.sectors (first_bmap_block + j);
      write_size = v.write_size;
    }

    kept : length next.bmap ≡ length s.bmap
    kept = length-overlay s.bmap sector (j * 512) block_size room full

    read_here :
        (i : ℕ)
        → j * 512 ≤ i
        → i < (j + 1) * 512
        → get_or next.bmap i 0 ≡ get_or (s.dev.sector (first_bmap_block + i / 512)) (i % 512) 0
    read_here i p q =
        let row : j ≡ i / 512 = omega arith in
        let column : i - j * 512 ≡ i % 512 = omega arith in
        overlay-inside s.bmap sector (j * 512) block_size room full i p
          (omega (arith, block_size-eq))
        ∙ ap₂ (λ t u. get_or (s.dev.sector (first_bmap_block + t)) u 0) row column

    spared :
        (i : ℕ) → (i < j * 512) ⊎ ((j + 1) * 512 ≤ i) → get_or next.bmap i 0 ≡ get_or s.bmap i 0
    spared i (inl p) = overlay-before s.bmap sector (j * 512) block_size room full i p
    spared i (inr p) =
        overlay-behind s.bmap sector (j * 512) block_size room full i (omega (arith, block_size-eq))

-- One round that has room.
load_step :
    (j : ℕ) (s : Bmap)
    → IsDevice s.dev
    → (j + 1) * 512 ≤ length s.bmap
    → j + 3 ≤ s.dev.hdsize
    → (s' : Bmap) × ((n : ℕ) → load_from (suc n) j s ≡ load_from n (j + 1) s')
      × IsDevice s'.dev
      × (s'.dev.hdsize ≡ s.dev.hdsize)
      × (length s'.bmap ≡ length s.bmap)
unfolding load_from
load_step j s v h f =
    let sector = s.dev.sector (first_bmap_block + j) in
    let room : j * 512 + block_size ≤ length s.bmap = omega (arith, block_size-eq) in
    let full : block_size ≤ length sector = omega (arith, v.sectors (first_bmap_block + j)) in
    let starts : leb (j * 512) (length s.bmap) ≡ true = ground arith in
    let long : block_size ≤ length (drop (j * 512) s.bmap) =
      omega (arith, block_size-eq, length-drop {0} (j * 512) s.bmap) in
    let read =
      rd_block-take v (first_bmap_block + j) (omega arith) (drop (j * 512) s.bmap) block_size long
        (le_refl block_size) in
    (
      record s {
        bmap = overlay s.bmap sector (j * 512) block_size room full;
        dev = record s.dev {
          read_cache = record { block_nr = first_bmap_block + j; cache = sector };
        };
      },
      λ n. rw (read, starts) refl,
      record {
        sectors = v.sectors;
        read_size = v.sectors (first_bmap_block + j);
        write_size = v.write_size;
      },
      refl,
      length-overlay s.bmap sector (j * 512) block_size room full,
    )

-- A bitmap that is shorter than the blocks that are read into it.
load_from-short :
    (n j : ℕ) (s : Bmap)
    → IsDevice s.dev
    → 0 < n
    → length s.bmap < (j + n) * 512
    → j + n + 2 ≤ s.dev.hdsize
    → load_from n j s ≡ none
unfolding load_from
load_from-short zero j s v some_blocks short f = absurd (omega arith)
load_from-short (suc n) j s v some_blocks short f = elim (dec_lt (length s.bmap) ((j + 1) * 512)) [
  | yes here ↦
      rw
        (rd_block-short v (first_bmap_block + j) (omega arith) (drop (j * 512) s.bmap) block_size
          (omega (arith, block_size-eq, length-drop {0} (j * 512) s.bmap)))
        refl
  | no later ↦
      let (s', step, device, size, kept) = load_step j s v (omega arith) (omega arith) in
      step n
      ∙ load_from-short n (j + 1) s' device (omega arith) (omega (arith, kept))
          (omega (arith, size))
]

module _ {s : Bmap} (mem : List ℕ) (m : IsBmap s) where
  load_bmap-short : length mem < s.num_bmap_blocks * 512 → load_bmap s (some mem) ≡ none
  unfolding load_bmap
  load_bmap-short short = elim (dec_lt (length mem) (s.dev.hdsize / 8)) [
    | yes none_left ↦ rw (malloc_bmap-short s mem none_left) refl
    | no cleared_all ↦ elim (Bool-cases (s.dev.hdsize / 8 == 0)) [
      | inl no_size ↦ rw (malloc_bmap-blank s mem (omega arith), no_size) refl
      | inr size ↦
          rw (malloc_bmap-blank s mem (omega arith), size)
            (load_from-short (blank s mem).num_bmap_blocks 0 (blank s mem) m.device (omega arith)
              (omega (arith, m.count, length-cleared mem (s.dev.hdsize / 8) (omega arith)))
              (omega (arith, m.fits, m.count)))
    ]
  ]

-- A block with room for the whole bitmap.
loaded :
    {s : Bmap} (mem : List ℕ)
    → IsBmap s
    → Synced s
    → 8 ≤ s.dev.hdsize
    → s.num_bmap_blocks * 512 ≤ length mem
    → ((i : ℕ) → get_or mem i 0 < 256)
    → (s' : Bmap) × (load_bmap s (some mem) ≡ some s')
      × IsBmap s'
      × ((b : ℕ) → b < s.dev.hdsize → allocated s' b ≡ allocated s b)
      × ((b : ℕ) → s'.dev.sector b ≡ s.dev.sector b)
unfolding load_bmap
loaded {s} mem m sync big room bytes =
    let size = length-cleared mem (s.dev.hdsize / 8) (omega (arith, m.count)) in
    let (s', ran, done) =
      load_from-Loaded (blank s mem).num_bmap_blocks 0 {s = blank s mem} m.device
        (omega (arith, size, m.count)) (omega (arith, m.fits, m.count)) in
    let slot : (i : ℕ) → i < s.num_bmap_blocks * 512 → get_or s'.bmap i 0 ≡ get_or s.bmap i 0 =
      λ i h.
        done.from_disk i (omega arith) (omega (arith, m.count))
        ∙ (ap (λ t. get_or t (i % 512) 0) (sync (i / 512) (omega arith)) ∙ from_part s.bmap i) in
    (
      s',
      rw
          (
            malloc_bmap-blank s mem (omega (arith, m.count)),
            ne→== (s.dev.hdsize / 8) 0 (omega arith),
          )
          ran,
      record {
        device = done.device;
        count = done.same_count ∙ ap (λ t. t / 8 / 512 + 1) (sym done.same_hdsize);
        fits = omega (arith, m.fits, m.count, done.same_count, done.same_hdsize);
        memory = omega (arith, done.same_count, done.same_length, size, m.count);
        bytes = λ i. elim (dec_lt i (s.num_bmap_blocks * 512)) [
          | yes p ↦ omega (arith, slot i p, m.bytes i)
          | no p ↦ ground (
            arith,
            done.others i (inr (omega (arith, m.count))),
            cleared-slot mem (s.dev.hdsize / 8) i,
            bytes i,
          )
        ];
      },
      λ b h. ap (λ t. byte_allocated t (b % 8)) (slot (b / 8) (omega (arith, m.count))),
      done.sectors,
    )
  where
    from_part : (bs : List ℕ) (i : ℕ) → get_or (part bs (i / 512)) (i % 512) 0 ≡ get_or bs i 0
    from_part bs i =
        get_or-take block_size (drop (i / 512 * 512) bs) (i % 512) 0 (omega (arith, block_size-eq))
        ∙ (get_or-drop (i / 512 * 512) bs (i % 512) 0 ∙ ap (λ t. get_or bs t 0) (omega arith))

-- Where the bitmap on disk is that in memory, and the disk has at least 8 blocks, `load_bmap` into a
-- new block of bytes, whatever they are, depends on the memory from that block on. Where it has room
-- for all blocks of the bitmap, `load_bmap` does not fault and gives a bitmap in which exactly the
-- same blocks of the disk are allocated, and no block of the disk changes. Where it is shorter, as are
-- the `hdsize / 8` bytes that `malloc_bmap` asks for, `load_bmap` goes beyond it, which is a fault.
pub load_bmap-allocated :
    {s : Bmap} (mem : List ℕ)
    → IsBmap s
    → Synced s
    → 8 ≤ s.dev.hdsize
    → ((i : ℕ) → get_or mem i 0 < 256)
    → ((s.num_bmap_blocks * 512 ≤ length mem)
        × (s' : Bmap) × (load_bmap s (some mem) ≡ some s')
        × IsBmap s'
        × ((b : ℕ) → b < s.dev.hdsize → allocated s' b ≡ allocated s b)
        × ((b : ℕ) → s'.dev.sector b ≡ s.dev.sector b))
      ⊎ ((length mem < s.num_bmap_blocks * 512)
          × (s.dev.hdsize / 8 < s.num_bmap_blocks * 512)
          × (load_bmap s (some mem) ≡ none))
load_bmap-allocated {s} mem m sync big bytes =
    elim (dec_lt (length mem) (s.num_bmap_blocks * 512)) [
      | yes short ↦ inr (short, omega (arith, m.count), load_bmap-short mem m short)
      | no room ↦
          let (s', ran, valid, same, kept) = loaded mem m sync big (omega arith) bytes in
          inl (omega arith, s', ran, valid, same, kept)
    ]
