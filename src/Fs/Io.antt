-- ===== src/Fs/Io.antt =====
-- Reading and writing files, `fs_read` and `fs_write` of src/kernel/fs/fs_read_write.c. A buffer is
-- the memory from its pointer on. `fuel` bounds the calls of each function to itself.
pub mod Read
pub mod Write
pub mod Stored
pub mod Whole
pub mod Spread
mod Tests
use potatoes.Prelude.{
  ℕ, zero, suc, ◌+◌, ◌-◌, ◌%◌, ◌^◌, Bool, not, ◌&&◌, ◌||◌, Option, none, some, List, ◌==◌, ltb,
  if◌then◌else◌, ◌>>=◌, take, drop, ◌++◌,
}
use potatoes.Klib.Memory.{memcpy, from_address}
use potatoes.Fs.Device.{Cache, Device, block_size, cache_block, wrt_cache}
use potatoes.Fs.Bmap.{Bmap, not_found}
use potatoes.Fs.Inodes.{MInode}
use potatoes.Fs.Inodes.Disk.{InodeIo, write_inode}
use potatoes.Fs.Blocks.{Blocks, get_data_block}

abbrev pub with_dev : Blocks → Device → Blocks
with_dev s dev = record s { bm = record s.bm { dev = dev } }

-- The first return of either function.
pub refuses : MInode → ℕ → ℕ → Bool → Bool
refuses inode num_bytes at_byte allow = ltb inode.size at_byte && not allow || num_bytes == 0

-- `cache_block` of the block and `memcpy` of `n` bytes of it, from `offset` on.
pub read_part : Blocks → List ℕ → ℕ → ℕ → ℕ → Option (Blocks × List ℕ)
read_part s buf data_blk offset n = do
  dev' ← cache_block s.bm.dev data_blk block_size
  buf' ← memcpy buf (drop offset dev'.read_cache.cache) n
  some (with_dev s dev', buf')

-- What a call to itself has read into the buffer from `n` on.
pub more_read : List ℕ → ℕ → Blocks × MInode × List ℕ × ℕ → Option (Blocks × MInode × List ℕ × ℕ)
more_read buf n (s, inode, rest, count) = some (s, inode, take n buf ++ rest, n + count)

-- The disk, the inode and the buffer as the call leaves them, and the number of bytes read.
pub fs_read : ℕ → Blocks → List ℕ → MInode → ℕ → ℕ → Bool → Option (Blocks × MInode × List ℕ × ℕ)
unfolding refuses read_part more_read
fs_read zero s buf inode num_bytes at_byte allow = none
fs_read (suc fuel) s buf inode num_bytes at_byte allow =
    if refuses inode num_bytes at_byte allow
    then some (s, inode, buf, 0)
    else (get_data_block s inode at_byte allow >>= (λ (s1, inode1, data_blk).
        let offset = at_byte % 512 in
        let readable = 512 - offset in
        let edge = read_part s1 buf data_blk offset readable >>= (λ (s2, buf2).
          fs_read fuel s2 (drop readable buf2) inode1 (num_bytes - readable)
            ((at_byte + readable) % 2 ^ 32) allow
          >>= more_read buf2 readable) in
        if data_blk == not_found
        then some (s1, inode1, buf, 0)
        else if not (ltb 512 ((offset + num_bytes) % 2 ^ 32))
        then (read_part s1 buf data_blk offset num_bytes
            >>= (λ (s2, buf2). some (s2, inode1, buf2, num_bytes)))
        else edge))

-- `cache_block` of the block, `memcpy` of `n` bytes into it from `offset` on, and `wrt_cache`.
pub write_part : Blocks → List ℕ → ℕ → ℕ → ℕ → Option Blocks
write_part s buf dest_blk offset n = do
  dev1 ← cache_block s.bm.dev dest_blk block_size
  bytes ← from_address dev1.read_cache.cache offset (λ dest. memcpy dest buf n)
  let c : Cache = record { block_nr = dest_blk; cache = bytes }
  dev2 ← wrt_cache (record dev1 { read_cache = c }) c block_size
  some (with_dev s dev2)

-- The end of `fs_write`: the size and the time stamp, and the inode on disk.
pub write_back : Blocks → MInode → ℕ → ℕ → ℕ → Option (Blocks × MInode × ℕ)
write_back s inode num_bytes at_byte time =
    let end = (at_byte + num_bytes) % 2 ^ 32 in
    let inode' : MInode = record inode {
      size = if ltb inode.size end then end else inode.size;
      modify_ts = time;
    } in
    write_inode (record { dev = s.bm.dev; d_inode_cache = s.d_inode_cache }) inode' >>= (λ io.
      some (
        record s { bm = record s.bm { dev = io.dev }; d_inode_cache = io.d_inode_cache },
        inode',
        num_bytes,
      ))

pub more_written : ℕ → Blocks × MInode × ℕ → Option (Blocks × MInode × ℕ)
more_written n (s, inode, count) = some (s, inode, n + count)

-- The time is the same in all calls.
pub fs_write : ℕ → Blocks → MInode → List ℕ → ℕ → ℕ → Bool → ℕ → Option (Blocks × MInode × ℕ)
unfolding refuses write_part write_back more_written
fs_write zero s inode buf num_bytes at_byte allow time = none
fs_write (suc fuel) s inode buf num_bytes at_byte allow time =
    if refuses inode num_bytes at_byte allow
    then some (s, inode, 0)
    else (get_data_block s inode at_byte allow >>= (λ (s1, inode1, dest_blk).
        let offset = at_byte % 512 in
        let writeable = 512 - offset in
        let edge = write_part s1 buf dest_blk offset writeable >>= (λ s2.
          fs_write fuel s2 inode1 (drop writeable buf) (num_bytes - writeable)
            ((at_byte + writeable) % 2 ^ 32) allow time
          >>= more_written writeable) in
        if dest_blk == not_found
        then some (s1, inode1, 0)
        else if not (ltb 512 ((offset + num_bytes) % 2 ^ 32))
        then (write_part s1 buf dest_blk offset num_bytes
            >>= (λ s2. write_back s2 inode1 num_bytes at_byte time))
        else edge))
