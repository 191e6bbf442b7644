-- ===== src/Fs/Io/Write.antt =====
-- Writing within one block, and reading what has been written.
use potatoes.Prelude.{
  ℕ, ◌+◌, ◌%◌, ◌^◌, ◌≤◌, ◌<◌, ◌≡◌, ◌≢◌, refl, ap, ◌∙◌, List, ◌++◌, max, some, ◌==◌, ltb,
  if◌then◌else◌, arith, length, length-append, length-take, length-drop, le→leb, length-replicate,
  take, drop, take-all, drop-all, append-nil,
}
use potatoes.Klib.Memory.{memcpy-take}
use potatoes.Fs.Device.{Device, block_size}
use potatoes.Fs.Device.Laws.{
  IsDevice, Written, padded, zeros, block_size-eq, cache_block-sector, wrt_block-Written,
  wrt_cache-wrt_block,
}
use potatoes.Fs.Inodes.{MInode}
use potatoes.Fs.Inodes.Bytes.{IsDInode}
use potatoes.Fs.Inodes.Disk.{InodeIo}
use potatoes.Fs.Inodes.Disk.Persist.{content, Stores, write_inode-Stores}
use potatoes.Fs.Blocks.{Blocks}
use potatoes.Fs.Io.{write_part, write_back, with_dev}

-- A block whose `n` bytes from `offset` on are the first of `buf`.
abbrev pub patched : List ℕ → ℕ → ℕ → List ℕ → List ℕ
patched old offset n buf = take offset old ++ (take n buf ++ drop n (drop offset old))

pub length-patched :
    (old : List ℕ) (offset n : ℕ) (buf : List ℕ)
    → offset + n ≤ length old
    → n ≤ length buf
    → length (patched old offset n buf) ≡ length old
length-patched old offset n buf within room = omega (
  arith,
  length-append {0} (take offset old) (take n buf ++ drop n (drop offset old)),
  length-append {0} (take n buf) (drop n (drop offset old)),
  length-take {0} offset old,
  length-take {0} n buf,
  length-drop {0} n (drop offset old),
  length-drop {0} offset old,
)

padded-block : (bytes : List ℕ) → length bytes ≡ block_size → padded bytes block_size ≡ bytes
padded-block bytes e =
    ap (λ t. take block_size bytes ++ t) (drop-all zeros block_size (length-replicate block_size 0))
    ∙ (append-nil (take block_size bytes) ∙ take-all bytes block_size e)

module _ (s : Blocks) (buf : List ℕ) (b offset n : ℕ) (v : IsDevice s.bm.dev)
    (inside : b ≤ s.bm.dev.hdsize) (within : offset + n ≤ 512) (room : n ≤ length buf) where
  abbrev new_block : List ℕ
  new_block = patched (s.bm.dev.sector b) offset n buf

  new_size : length new_block ≡ block_size
  new_size =
      length-patched (s.bm.dev.sector b) offset n buf (omega (arith, v.sectors b, block_size-eq))
        room
      ∙ v.sectors b

  -- The device when the block has been changed in the read cache.
  abbrev changed : Device
  changed = record s.bm.dev { read_cache = record { block_nr = b; cache = new_block } }

  changed-IsDevice : IsDevice changed
  changed-IsDevice = record { sectors = v.sectors; read_size = new_size; write_size = v.write_size }

  -- Bytes of the buffer replace those of a block behind `offset`; no other block changes.
  pub write_part-Written :
      (dev' : Device) × (write_part s buf b offset n ≡ some (with_dev s dev'))
      × Written s.bm.dev b new_block dev'
  unfolding write_part
  write_part-Written =
      let old = s.bm.dev.sector b in
      let size = length-drop {0} offset old in
      let (dev', ran, written) =
        wrt_block-Written changed-IsDevice b inside new_block block_size (omega (arith, new_size))
          (omega arith) in
      (
        dev',
        rw
            (
              cache_block-sector v b inside block_size,
              le→leb offset (length old) (omega (arith, v.sectors b, block_size-eq)),
              memcpy-take (drop offset old) buf n (omega (arith, size, v.sectors b, block_size-eq))
                  room,
              wrt_cache-wrt_block changed (record { block_nr = b; cache = new_block }) block_size,
              ran,
            )
            refl,
        record {
          valid = written.valid;
          same_size = written.same_size;
          at = λ j.
              written.at j
              ∙ ap (λ w. if j == b then w else s.bm.dev.sector j) (padded-block new_block new_size);
        },
      )

-- The inode once `n` bytes stand at a position.
abbrev pub written_inode : MInode → ℕ → ℕ → ℕ → MInode
written_inode inode n at_byte time = record inode {
  size = max inode.size (at_byte + n);
  modify_ts = time;
}

new_size-max :
    (size at_byte n : ℕ)
    → at_byte + n < 2 ^ 32
    → (if ltb size ((at_byte + n) % 2 ^ 32) then (at_byte + n) % 2 ^ 32 else size)
      ≡ max size (at_byte + n)
new_size-max size at_byte n h = ground arith

pub written_inode-IsDInode :
    (inode : MInode) (n at_byte time : ℕ)
    → at_byte + n < 2 ^ 32
    → time < 2 ^ 64
    → IsDInode (content inode)
    → IsDInode (content (written_inode inode n at_byte time))
written_inode-IsDInode inode n at_byte time h t ok = record {
  mode = ok.mode;
  size = ground (arith, ok.size);
  create_ts = ok.create_ts;
  modify_ts = t;
  pointers = ok.pointers;
  words = ok.words;
  single_indirect = ok.single_indirect;
  double_indirect = ok.double_indirect;
}

-- The inode goes to its block, with its new size and time.
pub write_back-Stores :
    (s : Blocks) (inode : MInode) (n at_byte time : ℕ)
    → IsDevice s.bm.dev
    → inode.adr ≤ s.bm.dev.hdsize
    → at_byte + n < 2 ^ 32
    → time < 2 ^ 64
    → IsDInode (content inode)
    → (s' : Blocks) × (write_back s inode n at_byte time
        ≡ some (s', written_inode inode n at_byte time, n))
      × (s'.bm.bmap ≡ s.bm.bmap)
      × Stores s'.bm.dev inode.adr (written_inode inode n at_byte time)
      × ((j : ℕ) → j ≢ inode.adr → s'.bm.dev.sector j ≡ s.bm.dev.sector j)
      × (s'.bm.dev.hdsize ≡ s.bm.dev.hdsize)
      × IsDevice s'.bm.dev
unfolding write_back
write_back-Stores s inode n at_byte time v inside h t ok =
    let io : InodeIo = record { dev = s.bm.dev; d_inode_cache = s.d_inode_cache } in
    let (io', ran, kept, stores, written) =
      write_inode-Stores io (written_inode inode n at_byte time) v inside
        (written_inode-IsDInode inode n at_byte time h t ok) in
    (
      record s { bm = record s.bm { dev = io'.dev }; d_inode_cache = io'.d_inode_cache },
      rw (new_size-max inode.size at_byte n h, ran) refl,
      refl,
      stores,
      λ j away. written.at j ∙ ground arith,
      written.same_size,
      written.valid,
    )
