-- ===== src/Fs/Device.antt =====
-- Blocks on the disk, through the two caches of src/kernel/fs/fs_buf.c and fs_block_dev.c. The disk
-- is an array of sectors; of src/kernel/io/io_harddisk.c the bound check is modelled, and what the
-- drive does with a command is the array access. A panic and a fault are both `none`.
pub mod Laws
pub mod Tests
use potatoes.Prelude.{ℕ, ◌<◌, Option, none, some, List, ◌==◌, ltb, if◌then◌else◌, ◌>>=◌}
use potatoes.Klib.Memory.{bzero, memcpy}

unfoldable pub block_size : ℕ
block_size = 512

-- `block_cache`.
pub record Cache : Type 0 where
  pub block_nr : ℕ
  pub cache : List ℕ

-- The disk with its size in sectors, and the two global caches.
pub record Device : Type 0 where
  pub hdsize : ℕ
  pub sector : ℕ → List ℕ
  pub read_cache : Cache
  pub write_cache : Cache

pub hd_read_sector : Device → List ℕ → ℕ → Option (List ℕ)
hd_read_sector dev dest src =
    if ltb dev.hdsize src then none else memcpy dest (dev.sector src) block_size

pub hd_write_sector : Device → ℕ → List ℕ → Option Device
hd_write_sector dev dest src =
    if ltb dev.hdsize dest
    then none
    else (memcpy (dev.sector dest) src block_size
        >>= (λ s. some (record dev { sector = λ b. if b == dest then s else dev.sector b })))

pub clear_cache : Cache → Option Cache
clear_cache c = bzero c.cache block_size >>= (λ z. some (record { block_nr = 0; cache = z }))

pub clear_buffer : List ℕ → Option (List ℕ)
clear_buffer buffer = bzero buffer block_size

-- The argument `num_bytes` of the source is not used there either.
pub cache_block : Device → ℕ → ℕ → Option Device
unfolding hd_read_sector clear_cache
cache_block dev blk_nr num_bytes = do
  c ← clear_cache dev.read_cache
  z ← hd_read_sector dev c.cache blk_nr
  some (record dev { read_cache = record { block_nr = blk_nr; cache = z } })

pub rd_block : Device → List ℕ → ℕ → ℕ → Option (Device × List ℕ)
unfolding cache_block
rd_block dev buf blk_nr num_bytes = do
  dev' ← cache_block dev blk_nr num_bytes
  buf' ← memcpy buf dev'.read_cache.cache num_bytes
  some (dev', buf')

pub wrt_block : Device → ℕ → List ℕ → ℕ → Option Device
unfolding hd_write_sector clear_cache
wrt_block dev blk_nr buf num_bytes = do
  c ← clear_cache dev.write_cache
  w ← memcpy c.cache buf num_bytes
  hd_write_sector (record dev { write_cache = record { block_nr = blk_nr; cache = w } }) blk_nr w

pub wrt_cache : Device → Cache → ℕ → Option Device
unfolding wrt_block
wrt_cache dev c num_bytes = wrt_block dev c.block_nr c.cache num_bytes

-- The read goes from the read cache to itself.
pub clear_block : Device → ℕ → Option Device
unfolding rd_block wrt_cache
clear_block dev blk_nr = do
  dev' ← cache_block dev blk_nr block_size
  same ← memcpy dev'.read_cache.cache dev'.read_cache.cache block_size
  z ← bzero same block_size
  let c : Cache = record { block_nr = blk_nr; cache = z }
  wrt_cache (record dev' { read_cache = c }) c block_size
