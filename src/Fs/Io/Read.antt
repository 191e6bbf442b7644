-- ===== src/Fs/Io/Read.antt =====
-- Reading within one block.
use potatoes.Prelude.{
  ℕ, suc, ◌+◌, ◌-◌, ◌/◌, ◌%◌, ◌^◌, ◌≤◌, ◌<◌, ◌≡◌, ◌≢◌, refl, ap, Bool, true, false, not, List, ◌++◌,
  some, ◌==◌, ltb, arith, length, length-drop, take, drop, get_elem?, ne→==,
}
use potatoes.Klib.Memory.{memcpy-take}
use potatoes.Fs.Device.{block_size}
use potatoes.Fs.Device.Laws.{IsDevice, block_size-eq, cache_block-sector}
use potatoes.Fs.Bmap.{not_found}
use potatoes.Fs.Inodes.{MInode}
use potatoes.Fs.Inodes.Bytes.{IsDInode}
use potatoes.Fs.Inodes.Disk.Persist.{content}
use potatoes.Fs.Blocks.{Blocks, bytes_direct}
use potatoes.Fs.Blocks.Direct.{get_data_block-Found, get_data_block-unset}
use potatoes.Fs.Io.{refuses, read_part, fs_read}

-- Bytes of a block behind `offset` are copied to the front of the buffer.
pub read_part-take :
    (s : Blocks) (buf : List ℕ) (b offset n : ℕ)
    → IsDevice s.bm.dev
    → b ≤ s.bm.dev.hdsize
    → offset + n ≤ 512
    → n ≤ length buf
    → (s' : Blocks) × (read_part s buf b offset n
        ≡ some (s', take n (drop offset (s.bm.dev.sector b)) ++ drop n buf))
      × ((j : ℕ) → s'.bm.dev.sector j ≡ s.bm.dev.sector j)
      × (s'.bm.dev.hdsize ≡ s.bm.dev.hdsize)
      × IsDevice s'.bm.dev
unfolding read_part
read_part-take s buf b offset n v inside within room =
    let cached = cache_block-sector v b inside block_size in
    let size : n ≤ length (drop offset (s.bm.dev.sector b)) =
      omega (arith, length-drop {0} offset (s.bm.dev.sector b), v.sectors b, block_size-eq) in
    (
      record s {
        bm = record s.bm {
          dev = record s.bm.dev { read_cache = record { block_nr = b; cache = s.bm.dev.sector b } };
        };
      },
      rw (cached, memcpy-take buf (drop offset (s.bm.dev.sector b)) n room size) refl,
      λ j. refl,
      refl,
      record { sectors = v.sectors; read_size = v.sectors b; write_size = v.write_size },
    )

pub accepts :
    (inode : MInode) (n at_byte : ℕ) (allow : Bool)
    → 0 < n
    → at_byte ≤ inode.size
    → refuses inode n at_byte allow ≡ false
unfolding refuses
accepts inode n at_byte allow some_bytes before = ground arith

-- A read of at least one byte that starts at or before the end of the file and stays within one
-- block, whose direct pointer is set to a block other than the inode's own, does not fault. It reads
-- all bytes asked for, from the place in that block that the position gives, to the front of the
-- buffer, and leaves the rest of the buffer.
pub fs_read-take :
    (fuel : ℕ) (s : Blocks) (buf : List ℕ) (inode : MInode) (n at_byte p : ℕ) (allow : Bool)
    → 0 < n
    → n ≤ length buf
    → at_byte ≤ inode.size
    → at_byte < bytes_direct
    → at_byte % 512 + n ≤ 512
    → get_elem? inode.direct_pointer (at_byte / 512) ≡ some p
    → p ≢ 0
    → p ≢ inode.adr
    → p ≤ s.bm.dev.hdsize
    → s.bm.dev.hdsize < 2 ^ 32 - 1
    → IsDevice s.bm.dev
    → inode.adr ≤ s.bm.dev.hdsize
    → IsDInode (content inode)
    → (s' : Blocks) × (fs_read (suc fuel) s buf inode n at_byte allow
        ≡ some (s', inode, take n (drop (at_byte % 512) (s.bm.dev.sector p)) ++ drop n buf, n))
unfolding fs_read
fs_read-take fuel s buf inode n at_byte p allow some_bytes room before direct within e set_p other
      on_disk small v inside ok =
    let (s1, ran, kept, stores, others, size, valid) =
      (get_data_block-Found s inode at_byte direct p e v inside ok).0 allow set_p in
    let (s2, read, same, size2, valid2) =
      read_part-take s1 buf p (at_byte % 512) n valid (omega (arith, size)) within room in
    let found : (p == not_found) ≡ false = ne→== p not_found (omega arith) in
    let inner : not (ltb 512 ((at_byte % 512 + n) % 2 ^ 32)) ≡ true = ground arith in
    (
      s2,
      rw (accepts inode n at_byte allow some_bytes before, ran, found, inner, read)
          (ap (λ block. some (s2, inode, take n (drop (at_byte % 512) block) ++ drop n buf, n))
            (others p other)),
    )

-- A read that starts at or before the end of the file, in a block that the file does not have, reads
-- nothing and changes nothing.
pub fs_read-unset :
    (fuel : ℕ) (s : Blocks) (buf : List ℕ) (inode : MInode) (n at_byte : ℕ)
    → 0 < n
    → at_byte ≤ inode.size
    → at_byte < bytes_direct
    → get_elem? inode.direct_pointer (at_byte / 512) ≡ some 0
    → fs_read (suc fuel) s buf inode n at_byte false ≡ some (s, inode, buf, 0)
unfolding fs_read
fs_read-unset fuel s buf inode n at_byte some_bytes before direct e =
    rw
      (
        accepts inode n at_byte false some_bytes before,
        get_data_block-unset s inode at_byte direct e,
      )
      refl
