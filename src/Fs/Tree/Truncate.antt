-- ===== src/Fs/Tree/Truncate.antt =====
-- The size of a file, `shrink_file` and `fs_truncate` of src/kernel/fs/fs_create_delete.c. A pointer
-- NULL is 0. Where the source takes the maximum of 0 and a difference, subtraction stops at 0 here.
pub mod Shrink
use potatoes.Prelude.{
  ℕ, zero, suc, ◌+◌, ◌-◌, ◌*◌, ◌/◌, ◌%◌, ◌^◌, Bool, true, false, not, ◌&&◌, Option, none, some,
  List, [], ◌∷◌, ◌++◌, ◌==◌, ltb, leb, if◌then◌else◌, ◌>>=◌, get_elem?, set, take, drop, replicate,
}
use potatoes.Prelude.Int.{ℤ, pos, negsuc}
use potatoes.Fs.Device.{block_size, rd_block, wrt_block}
use potatoes.Fs.Bmap.{Bmap, mark_block}
use potatoes.Fs.Inodes.{MInode, num_direct_pointer}
use potatoes.Fs.Inodes.Bytes.{words_bytes, bytes_words}
use potatoes.Fs.Files.{get_file}
use potatoes.Fs.Blocks.{Blocks, addrs_per_block, get_data_block}
use potatoes.Fs.Tree.{System, save_inode}
use potatoes.Fs.Tree.Open.{PathMemory, fs_open, fs_close}

-- The loops that mark the blocks of an array of pointers as unused, from index `start` on.
pub free_blocks : Bmap → ℕ → List ℕ → Option (Bmap × List ℕ)
free_blocks bm start [] = some (bm, [])
free_blocks bm (suc start) (b ∷ bs) =
    free_blocks bm start bs >>= (λ (bm', rest). some (bm', b ∷ rest))
free_blocks bm zero (b ∷ bs) =
    let freed =
      mark_block bm b false
      >>= (λ bm1. free_blocks bm1 zero bs >>= (λ (bm', rest). some (bm', 0 ∷ rest))) in
    let kept = free_blocks bm zero bs >>= (λ (bm', rest). some (bm', b ∷ rest)) in
    if b == 0 then kept else freed

-- The bitmap with the disk, and what `*block` is now. The local array is overwritten at once.
pub shrink_file : Bmap → ℕ → ℕ → Option (Bmap × ℕ)
unfolding free_blocks
shrink_file bm block start =
    let shrunk = rd_block bm.dev (replicate 512 0) block block_size >>= (λ (dev, bytes).
      free_blocks (record bm { dev = dev }) start (bytes_words addrs_per_block bytes)
      >>= (λ (bm', addrs).
          let still_used =
            wrt_block bm'.dev block (words_bytes addrs) block_size
            >>= (λ dev'. some (record bm' { dev = dev' }, block)) in
          let obsolete = mark_block bm' block false >>= (λ bm''. some (bm'', 0)) in
          if not (start == 0) then still_used else obsolete)) in
    if leb addrs_per_block start then some (bm, block) else shrunk

-- The loop over the entries of a double indirect block, `i` the index of the first of them.
pub shrink_from : Bmap → ℕ → ℕ → List ℕ → Option (Bmap × List ℕ)
unfolding shrink_file
shrink_from bm start i [] = some (bm, [])
shrink_from bm start i (b ∷ bs) =
    let shrunk =
      shrink_file bm b (start - num_direct_pointer - (i + 1) * addrs_per_block) >>= (λ (bm1, b').
        shrink_from bm1 start (suc i) bs >>= (λ (bm', rest). some (bm', b' ∷ rest))) in
    if b == 0 then some (bm, b ∷ bs) else shrunk

-- The single indirect pointer.
pub shrink_single : ℕ → Bmap × MInode → Option (Bmap × MInode)
unfolding shrink_file
shrink_single start (bm, inode) =
    let shrunk =
      shrink_file bm inode.single_indirect_pointer (start - num_direct_pointer)
      >>= (λ (bm', p). some (bm', record inode { single_indirect_pointer = p })) in
    if not (inode.single_indirect_pointer == 0) && ltb start (num_direct_pointer + addrs_per_block)
    then shrunk
    else some (bm, inode)

-- The double indirect pointer, once `addr_cache` holds its block.
pub shrink_addrs : Blocks → MInode → ℕ → Option (Blocks × MInode)
unfolding shrink_from
shrink_addrs s inode start =
    let blk = inode.double_indirect_pointer in
    let i = (start - num_direct_pointer - addrs_per_block) / addrs_per_block in
    shrink_from s.bm start i (drop i s.addr_cache) >>= (λ (bm, rest).
      let addrs = take i s.addr_cache ++ rest in
      let obsolete = mark_block bm blk false >>= (λ bm'. some (
        record s { bm = bm'; addr_cache = addrs },
        record inode { double_indirect_pointer = 0 },
      )) in
      let still_used =
        wrt_block bm.dev blk (words_bytes addrs) block_size
        >>= (λ dev. some (record s { bm = record bm { dev = dev }; addr_cache = addrs }, inode)) in
      if ltb start (num_direct_pointer + addrs_per_block) then obsolete else still_used)

pub shrink_double : Blocks → ℕ → Bmap × MInode → Option (Blocks × MInode)
unfolding shrink_addrs
shrink_double s start (bm, inode) =
    let shrunk =
      rd_block bm.dev (words_bytes s.addr_cache) inode.double_indirect_pointer block_size
      >>= (λ (dev, bytes).
          shrink_addrs
            (record s {
              bm = record bm { dev = dev };
              addr_cache = bytes_words addrs_per_block bytes;
            })
            inode start) in
    if inode.double_indirect_pointer == 0 then some (record s { bm = bm }, inode) else shrunk

-- The blocks of a file behind its new size.
pub shrink_blocks : Blocks → MInode → ℕ → Option (Blocks × MInode)
unfolding free_blocks shrink_single shrink_double
shrink_blocks s inode size =
    let start = (size + 511) % 2 ^ 32 / 512 in
    free_blocks s.bm start inode.direct_pointer >>= (λ (bm, pointers).
      shrink_single start (bm, record inode { direct_pointer = pointers })
      >>= shrink_double s start)

-- Blocks go, or the block of the new end comes.
pub resize : Blocks → MInode → ℕ → Option (Blocks × MInode)
unfolding shrink_blocks
resize s inode size =
    let shrunk = shrink_blocks s inode size in
    let grown = get_data_block s inode size true >>= (λ (s', inode', blk). some (s', inode')) in
    if ltb size inode.size then shrunk else if ltb inode.size size then grown else some (s, inode)

-- `fs_truncate` of the open file `fd`.
pub truncate_open : ℕ → System × ℤ → Option (System × Bool)
unfolding resize
truncate_open size (s, negsuc n) = some (s, false)
truncate_open size (s, pos fd) = do
  i ← get_file s.gft (pos fd)
  f ← get_elem? s.gft i
  p ← f.inode
  inode ← get_elem? s.inodes p
  (blocks, inode1) ← resize s.blocks inode size
  let inode2 : MInode = record inode1 { size = size }
  s1 ← save_inode (record s { blocks = blocks; inodes = set s.inodes p inode2 }) inode2
  (s2, closed) ← fs_close s1 (pos fd)
  some (s2, true)

pub fs_truncate : ℕ → System → List ℕ → ℕ → PathMemory → Option (System × Bool)
unfolding truncate_open
fs_truncate fuel s abs_path size memory = fs_open fuel s abs_path memory >>= truncate_open size
