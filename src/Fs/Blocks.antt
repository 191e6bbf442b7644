-- ===== src/Fs/Blocks.antt =====
-- From a position in a file to the block that holds it: `get_data_block` and `enlarge_file` of
-- src/kernel/fs/fs_block_dev.c. The block number NULL is 0. The inode behind the pointer goes in and
-- comes back as the call leaves it.
pub mod Direct
pub mod Tests
use potatoes.Prelude.{
  ℕ, ◌+◌, ◌-◌, ◌*◌, ◌/◌, ◌%◌, Bool, true, false, not, Option, none, some, List, [], ◌∷◌, ◌==◌, ltb,
  if◌then◌else◌, ◌>>=◌, get_elem?, store,
}
use potatoes.Fs.Device.{block_size, rd_block, wrt_block, clear_block}
use potatoes.Fs.Bmap.{Bmap, not_found, alloc_block}
use potatoes.Fs.Inodes.{MInode}
use potatoes.Fs.Inodes.Bytes.{words_bytes, bytes_words}
use potatoes.Fs.Inodes.Disk.{InodeIo, write_inode}

abbrev pub addrs_per_block : ℕ
addrs_per_block = 128

abbrev pub bytes_direct : ℕ
bytes_direct = 30 * 512

abbrev pub bytes_single_indirect : ℕ
bytes_single_indirect = 128 * 512

abbrev pub bytes_double_indirect : ℕ
bytes_double_indirect = 128 * 128 * 512

-- The bitmap with the disk, `addr_cache` as words, and the bytes of `d_inode_cache`.
pub record Blocks : Type 0 where
  pub bm : Bmap
  pub addr_cache : List ℕ
  pub d_inode_cache : List ℕ

pub enlarge_file : Bmap → ℕ → Option (Bmap × ℕ)
enlarge_file bm alloc_start = do
  (bm', data_blk) ← alloc_block bm alloc_start
  dev' ← clear_block bm'.dev data_blk
  some (record bm' { dev = dev' }, data_blk)

-- The block that a pointer leads to, which is a new one where the pointer is NULL and the file may
-- grow, and none where it may not.
pub follow : Blocks → ℕ → ℕ → Bool → Option (Blocks × Option ℕ)
unfolding enlarge_file
follow s p alloc_start allow =
    if not (p == 0)
    then some (s, some p)
    else if not allow
    then some (s, none)
    else (enlarge_file s.bm alloc_start >>= (λ (bm', blk). some (record s { bm = bm' }, some blk)))

-- `rd_block` of a block of addresses into `addr_cache`.
pub read_addrs : Blocks → ℕ → Option Blocks
read_addrs s blk = rd_block s.bm.dev (words_bytes s.addr_cache) blk block_size >>= (λ (dev', bytes).
    some (record s {
      bm = record s.bm { dev = dev' };
      addr_cache = bytes_words addrs_per_block bytes;
    }))

-- `enlarge_file` has put a new block into `addr_cache`, which is written to block `blk`.
pub write_addrs : Blocks → ℕ → Option Blocks
write_addrs s blk =
    wrt_block s.bm.dev blk (words_bytes s.addr_cache) block_size
    >>= (λ dev'. some (record s { bm = record s.bm { dev = dev' } }))

pub keep_addr : Blocks → ℕ → ℕ → ℕ → Option ℕ → Option (Blocks × Option ℕ)
unfolding write_addrs
keep_addr s blk k p none = some (s, none)
keep_addr s blk k p (some b) =
    if not (p == 0)
    then some (s, some b)
    else (store s.addr_cache k b >>= (λ addrs.
        write_addrs (record s { addr_cache = addrs }) blk >>= (λ s'. some (s', some b))))

-- The block that entry `k` of the addresses in block `blk` leads to.
pub follow_addr : Blocks → ℕ → ℕ → ℕ → Bool → Option (Blocks × Option ℕ)
unfolding follow read_addrs keep_addr
follow_addr s blk k alloc_start allow = do
  s' ← read_addrs s blk
  p ← get_elem? s'.addr_cache k
  (s'', r) ← follow s' p alloc_start allow
  keep_addr s'' blk k p r

-- The end of `get_data_block`: NOT_EXISTENT at once, or the block once the inode is written.
pub finish : Blocks × Option ℕ → MInode → Option (Blocks × MInode × ℕ)
finish (s, none) inode = some (s, inode, not_found)
finish (s, some data_blk) inode =
    write_inode (record { dev = s.bm.dev; d_inode_cache = s.d_inode_cache }) inode >>= (λ io. some (
      record s { bm = record s.bm { dev = io.dev }; d_inode_cache = io.d_inode_cache },
      inode,
      data_blk,
    ))

-- A pointer that `follow` found is stored again where it was.
pub keep_direct : MInode → ℕ → Blocks × Option ℕ → Option (Blocks × MInode × ℕ)
unfolding finish
keep_direct inode k (s, none) = some (s, inode, not_found)
keep_direct inode k (s, some blk) =
    store inode.direct_pointer k blk
    >>= (λ ps. finish (s, some blk) (record inode { direct_pointer = ps }))

pub direct_block : Blocks → MInode → ℕ → Bool → Option (Blocks × MInode × ℕ)
unfolding follow
direct_block s inode k allow = do
  p ← get_elem? inode.direct_pointer k
  r ← follow s p inode.adr allow
  keep_direct inode k r

pub through_single : MInode → ℕ → Bool → Blocks × Option ℕ → Option (Blocks × MInode × ℕ)
unfolding follow_addr finish
through_single inode k allow (s, none) = some (s, inode, not_found)
through_single inode k allow (s, some sip) =
    follow_addr s sip k sip allow
    >>= (λ r. finish r (record inode { single_indirect_pointer = sip }))

pub single_block : Blocks → MInode → ℕ → Bool → Option (Blocks × MInode × ℕ)
unfolding follow
single_block s inode k allow =
    follow s inode.single_indirect_pointer inode.adr allow >>= through_single inode k allow

-- The address block that entry `k / 128` of the block `dip` leads to has been followed.
pub through_addr : MInode → ℕ → ℕ → Bool → Blocks × Option ℕ → Option (Blocks × MInode × ℕ)
unfolding follow_addr finish
through_addr inode dip k allow (s, none) = some (s, inode, not_found)
through_addr inode dip k allow (s, some sip) =
    follow_addr s sip (k % addrs_per_block) dip allow >>= (λ r. finish r inode)

pub through_double : MInode → ℕ → Bool → Blocks × Option ℕ → Option (Blocks × MInode × ℕ)
unfolding follow_addr
through_double inode k allow (s, none) = some (s, inode, not_found)
through_double inode k allow (s, some dip) =
    follow_addr s dip (k / addrs_per_block) dip allow
    >>= through_addr (record inode { double_indirect_pointer = dip }) dip k allow

pub double_block : Blocks → MInode → ℕ → Bool → Option (Blocks × MInode × ℕ)
unfolding follow
double_block s inode k allow =
    follow s inode.double_indirect_pointer inode.adr allow >>= through_double inode k allow

pub get_data_block : Blocks → MInode → ℕ → Bool → Option (Blocks × MInode × ℕ)
get_data_block s inode pos allow =
    if ltb pos bytes_direct
    then direct_block s inode (pos / 512) allow
    else if ltb pos (bytes_direct + bytes_single_indirect)
    then single_block s inode ((pos - bytes_direct) / 512) allow
    else if ltb pos (bytes_direct + bytes_single_indirect + bytes_double_indirect)
    then double_block s inode ((pos - bytes_direct - bytes_single_indirect) / 512) allow
    else some (s, inode, not_found)
