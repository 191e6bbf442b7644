-- ===== src/Fs/Device/Laws.antt =====
-- What is written to a block is read back, and no other block changes.
use potatoes.Prelude.{
  ℕ, ◌≤◌, ◌<◌, ◌≡◌, refl, ap, ◌∙◌, some, none, List, ◌++◌, ◌==◌, ltb, if◌then◌else◌, arith, length,
  take, drop, replicate, length-append, length-replicate, length-take, length-drop, false, take-all,
  drop-all, append-nil,
}
use potatoes.Klib.Memory.{
  bzero, bzero-replicate, memcpy, memcpy-take, memcpy-short, memcpy-short_source, >>=-none,
}
use potatoes.Fs.Device.{
  Cache, Device, block_size, hd_write_sector, clear_cache, cache_block, rd_block, wrt_block,
  wrt_cache, clear_block,
}

-- Every sector and both caches have the size of a block.
pub record IsDevice (dev : Device) : Type 0 where
  pub sectors : (b : ℕ) → length (dev.sector b) ≡ block_size
  pub read_size : length dev.read_cache.cache ≡ block_size
  pub write_size : length dev.write_cache.cache ≡ block_size

-- `dev'` is `dev` but for the caches and block `b`, which holds `bytes`.
pub record Written (dev : Device) (b : ℕ) (bytes : List ℕ) (dev' : Device) : Type 0 where
  pub valid : IsDevice dev'
  pub same_size : dev'.hdsize ≡ dev.hdsize
  pub at : (j : ℕ) → dev'.sector j ≡ (if j == b then bytes else dev.sector j)

pub block_size-eq : block_size ≡ 512
unfolding block_size
block_size-eq = refl

-- A block of zeros.
abbrev pub zeros : List ℕ
zeros = replicate block_size 0

-- The first `n` bytes of `buf`, filled up with zeros to a block.
abbrev pub padded : List ℕ → ℕ → List ℕ
padded buf n = take n buf ++ drop n zeros

length-overlay :
    (n : ℕ) (xs ys : List ℕ)
    → n ≤ length xs
    → n ≤ length ys
    → length (take n xs ++ drop n ys) ≡ length ys
length-overlay n xs ys h k =
    omega
      (arith, length-append {0} (take n xs) (drop n ys), length-take {0} n xs, length-drop {0} n ys)

pub length-padded :
    (buf : List ℕ) (n : ℕ) → n ≤ length buf → n ≤ block_size → length (padded buf n) ≡ block_size
length-padded buf n h k =
    length-overlay n buf zeros h (omega (arith, length-replicate {0} {A = ℕ} block_size 0))
    ∙ length-replicate block_size 0

-- Writing from memory that is too short.
pub wrt_block-short :
    (dev : Device) (b : ℕ) (buf : List ℕ) (n : ℕ) → length buf < n → wrt_block dev b buf n ≡ none
unfolding wrt_block
wrt_block-short dev b buf n h =
    >>=-none (clear_cache dev.write_cache) _ (λ c. rw (memcpy-short_source c.cache buf n h) refl)

-- Copying a whole block over a block.
memcpy-block :
    (dest src : List ℕ)
    → length dest ≡ block_size
    → length src ≡ block_size
    → memcpy dest src block_size ≡ some src
memcpy-block dest src h k =
    memcpy-take dest src block_size (omega arith) (omega arith)
    ∙ ap some (
        ap (λ t. take block_size src ++ t) (drop-all dest block_size h)
        ∙ (append-nil (take block_size src) ∙ take-all src block_size k))

bzero-block : (dest : List ℕ) → length dest ≡ block_size → bzero dest block_size ≡ some zeros
bzero-block dest h =
    bzero-replicate dest block_size (omega arith)
    ∙ ap some (ap (λ t. zeros ++ t) (drop-all dest block_size h) ∙ append-nil zeros)

clear_cache-zeros :
    (c : Cache)
    → length c.cache ≡ block_size
    → clear_cache c ≡ some (record { block_nr = 0; cache = zeros })
unfolding clear_cache
clear_cache-zeros c h = rw (bzero-block c.cache h)

in_range : (a b : ℕ) → a ≤ b → ltb b a ≡ false
in_range a b h = ground arith

module _ {dev : Device} (v : IsDevice dev) (b : ℕ) (inside : b ≤ dev.hdsize) where
  write_sector :
      (w : List ℕ)
      → length w ≡ block_size
      → hd_write_sector dev b w
        ≡ some (record dev { sector = λ j. if j == b then w else dev.sector j })
  unfolding hd_write_sector
  write_sector w h =
      rw (in_range b dev.hdsize inside, memcpy-block (dev.sector b) w (v.sectors b) h)

  -- The device after a block has been written through the write cache.
  abbrev wrote : List ℕ → Device
  wrote w = record dev {
    sector = λ j. if j == b then w else dev.sector j;
    write_cache = record { block_nr = b; cache = w };
  }

  -- `wrt_block` writes the bytes, filled up with zeros to the block, to that block alone.
  pub wrt_block-Written :
      (buf : List ℕ) (n : ℕ)
      → n ≤ length buf
      → n ≤ block_size
      → (dev' : Device) × (wrt_block dev b buf n ≡ some dev') × Written dev b (padded buf n) dev'
  unfolding wrt_block
  wrt_block-Written buf n h k =
      let size = length-padded buf n h k in
      let copied =
        memcpy-take zeros buf n (omega (arith, length-replicate {0} {A = ℕ} block_size 0)) h in
      (
        wrote (padded buf n),
        rw
            (
              clear_cache-zeros dev.write_cache v.write_size,
              copied,
              in_range b dev.hdsize inside,
              memcpy-block (dev.sector b) (padded buf n) (v.sectors b) size,
            )
            refl,
        record {
          valid = record {
            sectors = λ j. ground (arith, v.sectors j);
            read_size = v.read_size;
            write_size = size;
          };
          same_size = refl;
          at = λ j. refl;
        },
      )

  -- `cache_block` brings the block into the read cache.
  pub cache_block-sector :
      (n : ℕ)
      → cache_block dev b n
        ≡ some (record dev { read_cache = record { block_nr = b; cache = dev.sector b } })
  unfolding cache_block
  cache_block-sector n =
      rw
        (
          clear_cache-zeros dev.read_cache v.read_size,
          in_range b dev.hdsize inside,
          memcpy-block zeros (dev.sector b) (length-replicate block_size 0) (v.sectors b),
        )
        refl

  -- `rd_block` copies the first bytes of the block, which the read cache then holds.
  pub rd_block-take :
      (buf : List ℕ) (n : ℕ)
      → n ≤ length buf
      → n ≤ block_size
      → rd_block dev buf b n
        ≡ some (
          record dev { read_cache = record { block_nr = b; cache = dev.sector b } },
          take n (dev.sector b) ++ drop n buf,
        )
  unfolding rd_block
  rd_block-take buf n h k =
      rw
        (
          clear_cache-zeros dev.read_cache v.read_size,
          in_range b dev.hdsize inside,
          memcpy-block zeros (dev.sector b) (length-replicate block_size 0) (v.sectors b),
          memcpy-take buf (dev.sector b) n h (omega (arith, v.sectors b)),
        )
        refl

  pub rd_block-short : (buf : List ℕ) (n : ℕ) → length buf < n → rd_block dev buf b n ≡ none
  unfolding rd_block
  rd_block-short buf n h =
      rw
        (
          clear_cache-zeros dev.read_cache v.read_size,
          in_range b dev.hdsize inside,
          memcpy-block zeros (dev.sector b) (length-replicate block_size 0) (v.sectors b),
          memcpy-short buf (dev.sector b) n h,
        )
        refl

  -- `clear_block` fills the block with zeros, and changes no other.
  pub clear_block-Written :
      (dev' : Device) × (clear_block dev b ≡ some dev') × Written dev b zeros dev'
  unfolding clear_block
  clear_block-Written =
      let blank = length-replicate {A = ℕ} block_size 0 in
      (
        record dev {
          sector = λ j. if j == b then zeros else dev.sector j;
          read_cache = record { block_nr = b; cache = zeros };
          write_cache = record { block_nr = b; cache = zeros };
        },
        rw
            (
              bzero-block dev.read_cache.cache v.read_size,
              in_range b dev.hdsize inside,
              memcpy-block zeros (dev.sector b) blank (v.sectors b),
              memcpy-block (dev.sector b) (dev.sector b) (v.sectors b) (v.sectors b),
              bzero-block (dev.sector b) (v.sectors b),
              bzero-block dev.write_cache.cache v.write_size,
              memcpy-block zeros zeros blank blank,
              in_range b dev.hdsize inside,
              memcpy-block (dev.sector b) zeros (v.sectors b) blank,
            )
            refl,
        record {
          valid = record {
            sectors = λ j. ground (arith, v.sectors j, blank);
            read_size = blank;
            write_size = blank;
          };
          same_size = refl;
          at = λ j. refl;
        },
      )

pub wrt_cache-wrt_block :
    (dev : Device) (c : Cache) (n : ℕ) → wrt_cache dev c n ≡ wrt_block dev c.block_nr c.cache n
unfolding wrt_cache
wrt_cache-wrt_block dev c n = refl
