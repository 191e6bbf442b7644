-- ===== src/Fs/Inodes/Disk/Persist.antt =====
-- An inode that is written to its block is read back from there.
use potatoes.Prelude.{
  ℕ, ◌≤◌, ◌≡◌, zero, suc, refl, ap, ap₂, ◌∙◌, List, [], ◌∷◌, ◌++◌, some, arith, length, take, drop,
  replicate, take-all, drop-all, append-nil, length-append, length-drop, length-replicate,
}
use potatoes.Klib.Memory.{bzero-replicate}
use potatoes.Fs.Device.{Device}
use potatoes.Fs.Device.Laws.{
  IsDevice, block_size-eq, Written, padded, zeros, wrt_block-Written, rd_block-take,
}
use potatoes.Fs.Inodes.{
  DInode, MInode, num_direct_pointer, cpy_minode_to_dinode, cpy_dinode_to_minode,
}
use potatoes.Fs.Inodes.Copy.{copy_pointers-all}
use potatoes.Fs.Inodes.Bytes.{
  disk_inode_size, encode_dinode, decode_dinode, IsDInode, length-encode_dinode,
  length-decode_dinode, decode_dinode-encode_dinode,
}
use potatoes.Fs.Inodes.Disk.{InodeIo, read_dinode, read_minode, write_inode}

-- What an inode has on disk.
abbrev pub content : MInode → DInode
content mi = record {
  mode = mi.mode;
  size = mi.size;
  create_ts = mi.create_ts;
  modify_ts = mi.modify_ts;
  direct_pointer = mi.direct_pointer;
  single_indirect_pointer = mi.single_indirect_pointer;
  double_indirect_pointer = mi.double_indirect_pointer;
}

-- The bytes of the block are those of the inode, with zeros behind.
abbrev pub Stores : Device → ℕ → MInode → Type 0
Stores dev b mi = dev.sector b ≡ padded (encode_dinode (content mi)) disk_inode_size

take-prefix : (n : ℕ) (xs ys : List ℕ) → length xs ≡ n → take n (xs ++ ys) ≡ xs
take-prefix zero [] ys e = refl
take-prefix zero (x ∷ xs) ys e = absurd (omega arith)
take-prefix (suc n) [] ys e = absurd (omega arith)
take-prefix (suc n) (x ∷ xs) ys e = ap (λ r. x ∷ r) (take-prefix n xs ys (omega arith))

-- Bytes that a block stores are read into a buffer of their size.
pub read_back :
    (block buf bytes : List ℕ) (n : ℕ)
    → block ≡ padded bytes n
    → length bytes ≡ n
    → length buf ≡ n
    → take n block ++ drop n buf ≡ bytes
read_back block buf bytes n stored size room =
    ap₂ ◌++◌
      (ap (take n) (stored ∙ ap (λ r. r ++ drop n zeros) (take-all bytes n size))
        ∙ take-prefix n bytes (drop n zeros) size)
      (drop-all buf n room)
    ∙ append-nil bytes

-- `write_inode` does not fault on an inode with fields of their widths and a block on the disk. It
-- writes the inode's content to that block and changes no other.
pub write_inode-Stores :
    (s : InodeIo) (mi : MInode)
    → IsDevice s.dev
    → mi.adr ≤ s.dev.hdsize
    → IsDInode (content mi)
    → (s' : InodeIo) × (write_inode s mi ≡ some s')
      × (s'.d_inode_cache ≡ encode_dinode (content mi))
      × Stores s'.dev mi.adr mi
      × Written s.dev mi.adr (padded (encode_dinode (content mi)) disk_inode_size) s'.dev
unfolding write_inode cpy_minode_to_dinode
write_inode-Stores s mi v inside ok =
    let copied =
      copy_pointers-all (decode_dinode s.d_inode_cache).direct_pointer mi.direct_pointer
        (length-decode_dinode s.d_inode_cache) ok.pointers in
    let (dev', ran, written) =
      wrt_block-Written v mi.adr inside (encode_dinode (content mi)) disk_inode_size
        (omega (arith, length-encode_dinode ok)) (omega (arith, block_size-eq)) in
    (
      record { dev = dev'; d_inode_cache = encode_dinode (content mi) },
      rw (copied, ran) refl,
      refl,
      written.at mi.adr ∙ ground arith,
      written,
    )

-- `read_minode` of a block that stores an inode does not fault, and puts the inode's content and the
-- number of the block into the given inode, which keeps its number in the table; the disk stays.
pub read_minode-Stores :
    (s : InodeIo) (mi target : MInode) (b : ℕ)
    → IsDevice s.dev
    → b ≤ s.dev.hdsize
    → length s.d_inode_cache ≡ disk_inode_size
    → length target.direct_pointer ≡ num_direct_pointer
    → IsDInode (content mi)
    → Stores s.dev b mi
    → (s' : InodeIo) × (read_minode s target b ≡ some (s', record mi { num = target.num; adr = b }))
      × (s'.d_inode_cache ≡ encode_dinode (content mi))
      × ((j : ℕ) → s'.dev.sector j ≡ s.dev.sector j)
unfolding read_minode read_dinode cpy_dinode_to_minode
read_minode-Stores s mi target b v inside size room ok stores =
    let z : List ℕ = replicate disk_inode_size 0 ++ drop disk_inode_size s.d_inode_cache in
    let cleared = bzero-replicate s.d_inode_cache disk_inode_size (omega arith) in
    let z_size : length z ≡ disk_inode_size = omega (
      arith,
      length-append {0} (replicate disk_inode_size 0) (drop disk_inode_size s.d_inode_cache),
      length-replicate {0} {A = ℕ} disk_inode_size 0,
      length-drop {0} disk_inode_size s.d_inode_cache,
    ) in
    let taken =
      rd_block-take v b inside z disk_inode_size (omega (arith, z_size))
        (omega (arith, block_size-eq)) in
    let copied = copy_pointers-all target.direct_pointer mi.direct_pointer room ok.pointers in
    (
      record {
        dev = record s.dev { read_cache = record { block_nr = b; cache = s.dev.sector b } };
        d_inode_cache = encode_dinode (content mi);
      },
      rw
          (
            cleared,
            taken,
            read_back (s.dev.sector b) z (encode_dinode (content mi)) disk_inode_size stores
                (length-encode_dinode ok) z_size,
            decode_dinode-encode_dinode ok,
            copied,
          )
          refl,
      refl,
      λ j. refl,
    )
