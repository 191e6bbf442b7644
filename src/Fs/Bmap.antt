-- ===== src/Fs/Bmap.antt =====
-- The block bitmap, src/kernel/fs/fs_bmap.c. `bmap` is the memory from the pointer `bmap` on,
-- which may end with the block that `mallocn` gave or reach beyond it. BLOCK_SIZE is written 512 in sums. A fault, a panic and a failed ASSERT are `none`.
pub mod Bytes
pub mod Mark
pub mod Free
pub mod Format
pub mod Persist
pub mod Overlay
pub mod Load
pub mod Tests
use potatoes.Prelude.{
  ℕ, zero, suc, ◌+◌, ◌-◌, ◌*◌, ◌/◌, ◌%◌, ◌^◌, Bool, true, false, not, Option, none, some, List,
  ◌==◌, ltb, if◌then◌else◌, ◌>>=◌, get_elem?, store, drop, bit_and, bit_or,
}
use potatoes.Klib.Memory.{bzero, from_address}
use potatoes.Fs.Device.{Device, block_size, rd_block, wrt_block}

-- The globals of fs_bmap.h, with the disk.
pub record Bmap : Type 0 where
  pub bmap : List ℕ
  pub num_bmap_blocks : ℕ
  pub first_data_block : ℕ
  pub dev : Device

abbrev pub not_found : ℕ
not_found = 2 ^ 32 - 1

abbrev pub root_inode_block : ℕ
root_inode_block = 2

abbrev pub first_bmap_block : ℕ
first_bmap_block = 3

-- `(byte >> (8 - bit)) | (byte << bit)` and its mirror image, cut to `uint8`.
pub rotate_left : ℕ → ℕ → ℕ
rotate_left byte b = bit_or (byte / 2 ^ (8 - b)) (byte * 2 ^ b) % 256

pub rotate_right : ℕ → ℕ → ℕ
rotate_right byte b = bit_or (byte / 2 ^ b) (byte * 2 ^ (8 - b)) % 256

-- The byte that `mark_block` stores.
pub mark_byte : ℕ → ℕ → Bool → ℕ
unfolding rotate_left rotate_right
mark_byte byte b flag =
    let turned = rotate_left byte b in
    rotate_right (if flag then bit_or turned 0x80 else bit_and turned 0x7f) b

-- The test of `is_allocated_block` on its byte.
pub byte_allocated : ℕ → ℕ → Bool
byte_allocated byte b = not (bit_and (byte * 2 ^ b % 256) 0x80 == 0)

pub mark_block : Bmap → ℕ → Bool → Option Bmap
mark_block s blk_nr flag = do
  byte ← get_elem? s.bmap (blk_nr / 8)
  bytes ← store s.bmap (blk_nr / 8) (mark_byte byte (blk_nr % 8) flag)
  let part = blk_nr / 8 / 512
  dev' ← wrt_block s.dev (first_bmap_block + part) (drop (part * 512) bytes) block_size
  some (record s { bmap = bytes; dev = dev' })

pub is_allocated_block : Bmap → ℕ → Option Bool
unfolding byte_allocated
is_allocated_block s blk_nr =
    get_elem? s.bmap (blk_nr / 8) >>= (λ byte. some (byte_allocated byte (blk_nr % 8)))

-- The loop of `get_free_block` with the rounds left.
pub free_block_from : Bmap → ℕ → ℕ → Option ℕ
free_block_from s zero blk = some not_found
free_block_from s (suc n) blk =
    let rest = free_block_from s n (blk + 1) in
    is_allocated_block s blk >>= (λ a. if a then rest else some blk)

pub get_free_block : Bmap → ℕ → Option ℕ
unfolding free_block_from
get_free_block s start = free_block_from s (s.dev.hdsize - start) start

pub alloc_block : Bmap → ℕ → Option (Bmap × ℕ)
alloc_block s start = do
  blk_nr ← get_free_block s start
  s' ← mark_block s blk_nr true
  some (s', blk_nr)

-- The returned size, and the bitmap cleared unless `mallocn` gave NULL.
pub malloc_bmap : Bmap → Option (List ℕ) → Option (Bmap × ℕ)
malloc_bmap s block =
    let size = s.dev.hdsize / 8 in
    let num = size / 512 + 1 in
    let s' = record s { num_bmap_blocks = num; first_data_block = root_inode_block + num + 1 } in
    elim block [
      | none ↦ some (s', 0)
      | some m ↦ bzero m size >>= (λ z. some (record s' { bmap = z }, size))
    ]

-- `mark_block(i, TRUE)` for `n` blocks from `i` on.
pub mark_from : ℕ → ℕ → Bmap → Option Bmap
mark_from zero i s = some s
mark_from (suc n) i s = mark_block s i true >>= mark_from n (i + 1)

pub init_bmap : Bmap → Option (List ℕ) → Option Bmap
unfolding mark_from
init_bmap s block = do
  (s', size) ← malloc_bmap s block
  if size == 0 then none else mark_from s'.first_data_block 0 s'

pub load_from : ℕ → ℕ → Bmap → Option Bmap
load_from zero j s = some s
load_from (suc n) j s = do
  (dev', part) ← rd_block s.dev (drop (j * 512) s.bmap) (first_bmap_block + j) block_size
  bytes ← from_address s.bmap (j * 512) (λ m. some part)
  load_from n (j + 1) (record s { bmap = bytes; dev = dev' })

pub load_bmap : Bmap → Option (List ℕ) → Option Bmap
unfolding load_from
load_bmap s block = do
  (s', size) ← malloc_bmap s block
  if size == 0 then none else load_from s'.num_bmap_blocks 0 s'

pub write_from : ℕ → ℕ → Bmap → Option Bmap
write_from zero j s = some s
write_from (suc n) j s = do
  dev' ← wrt_block s.dev (first_bmap_block + j) (drop (j * 512) s.bmap) block_size
  write_from n (j + 1) (record s { dev = dev' })

pub write_bmap : Bmap → Option Bmap
unfolding write_from
write_bmap s = write_from s.num_bmap_blocks 0 s
