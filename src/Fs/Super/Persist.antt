-- ===== src/Fs/Super/Persist.antt =====
-- The super block on its way to the disk and back.
use potatoes.Prelude.{ℕ, ◌+◌, ◌^◌, ◌≤◌, ◌<◌, ◌≡◌, refl, ap, ◌∙◌, some, ◌>>=◌, arith, length}
use potatoes.Fs.Device.{Device}
use potatoes.Fs.Device.Laws.{
  IsDevice, block_size-eq, Written, padded, wrt_block-Written, rd_block-take,
}
use potatoes.Fs.Inodes.Bytes.{from_le-le_bytes}
use potatoes.Fs.Inodes.Disk.Persist.{read_back}
use potatoes.Fs.Blocks.{bytes_direct, bytes_single_indirect, bytes_double_indirect}
use potatoes.Fs.Super.{
  SuperBlock, super_size, super_block_nr, init_super_block, encode_super, decode_super,
  load_super_block, write_super_block,
}

-- Each field is within its width.
pub record IsSuper (s : SuperBlock) : Type 0 where
  pub hd_size : s.hd_size < 2 ^ 32
  pub bmap_blocks : s.bmap_blocks < 2 ^ 16
  pub first_data_block : s.first_data_block < 2 ^ 32
  pub max_file_size : s.max_file_size < 2 ^ 32
  pub bmap : s.bmap < 2 ^ 32
  pub iroot : s.iroot < 2 ^ 32
  pub modify_ts : s.modify_ts < 2 ^ 64
  pub read_only : s.read_only < 2 ^ 8
  pub dirt : s.dirt < 2 ^ 16
  pub magic_number : s.magic_number < 2 ^ 32

length-encode_super : (s : SuperBlock) → length (encode_super s) ≡ super_size
unfolding encode_super
length-encode_super s = refl

decode_super-encode_super : {s : SuperBlock} → IsSuper s → decode_super (encode_super s) ≡ s
unfolding encode_super decode_super
decode_super-encode_super {s} v =
    rw
      (
        from_le-le_bytes 4 s.hd_size v.hd_size,
        from_le-le_bytes 2 s.bmap_blocks v.bmap_blocks,
        from_le-le_bytes 4 s.first_data_block v.first_data_block,
        from_le-le_bytes 4 s.max_file_size v.max_file_size,
        from_le-le_bytes 4 s.bmap v.bmap,
        from_le-le_bytes 4 s.iroot v.iroot,
        from_le-le_bytes 8 s.modify_ts v.modify_ts,
        from_le-le_bytes 1 s.read_only v.read_only,
        from_le-le_bytes 2 s.dirt v.dirt,
        from_le-le_bytes 4 s.magic_number v.magic_number,
      )
      refl

-- The file size that the super block states is what the direct and indirect pointers reach.
pub max_file_size_reached :
    (hdsize bmap_blocks first bmap root time : ℕ)
    → (init_super_block hdsize bmap_blocks first bmap root time).max_file_size
      ≡ bytes_direct + bytes_single_indirect + bytes_double_indirect
unfolding init_super_block
max_file_size_reached hdsize bmap_blocks first bmap root time = refl

-- `write_super_block` of a super block with fields of their widths does not fault and writes no
-- block but that of the super block; `load_super_block` then reads the same super block back,
-- whatever was in memory before.
pub load_super_block-write_super_block :
    (dev : Device) (s old : SuperBlock)
    → IsDevice dev
    → 1 ≤ dev.hdsize
    → IsSuper s
    → (dev' : Device) × (dev'' : Device) × (write_super_block dev s ≡ some dev')
      × Written dev super_block_nr (padded (encode_super s) super_size) dev'
      × (load_super_block dev' old ≡ some (dev'', s))
unfolding write_super_block load_super_block
load_super_block-write_super_block dev s old v l w =
    let (dev', ran, written) =
      wrt_block-Written v super_block_nr l (encode_super s) super_size
        (omega (arith, length-encode_super s)) (omega (arith, block_size-eq)) in
    let taken =
      rd_block-take written.valid super_block_nr (omega (arith, l, written.same_size))
        (encode_super old) super_size (omega (arith, length-encode_super old))
        (omega (arith, block_size-eq)) in
    let back =
      read_back (dev'.sector super_block_nr) (encode_super old) (encode_super s) super_size
        (written.at super_block_nr) (length-encode_super s) (length-encode_super old) in
    (
      dev',
      record dev' {
        read_cache = record { block_nr = super_block_nr; cache = dev'.sector super_block_nr };
      },
      ran,
      written,
      ap (λ o. o >>= (λ (d, bytes). some (d, decode_super bytes))) taken
          ∙ ap
              (λ bytes. some (
                record dev' {
                  read_cache = record {
                    block_nr = super_block_nr;
                    cache = dev'.sector super_block_nr;
                  };
                },
                decode_super bytes,
              ))
              back
          ∙ ap
              (λ t. some (
                record dev' {
                  read_cache = record {
                    block_nr = super_block_nr;
                    cache = dev'.sector super_block_nr;
                  };
                },
                t,
              ))
              (decode_super-encode_super w),
    )
