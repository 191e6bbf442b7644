-- ===== src/Fs/Bmap/Persist.antt =====
-- The way of the bitmap to the disk and back.
use potatoes.Prelude.{
  ℕ, zero, suc, ◌+◌, ◌*◌, ◌/◌, ◌≤◌, ◌<◌, ◌≡◌, ◌⊎◌, inl, ◌∙◌, sym, refl, ap, some, arith, length,
  drop, length-drop,
}
use native.Mathlib.Nat.{le_refl}
use native.Mathlib.Decide.{ℕ_discrete}
use potatoes.Fs.Device.{Device, block_size}
use potatoes.Fs.Device.Laws.{IsDevice, block_size-eq, wrt_block-Written}
use potatoes.Fs.Bmap.{Bmap, first_bmap_block, write_from, write_bmap}
use potatoes.Fs.Bmap.Mark.{part, padded-part, IsBmap, Synced}

-- Another device of the same size in the same place.
IsBmap-dev :
    {s : Bmap} {dev' : Device}
    → IsBmap s
    → IsDevice dev'
    → dev'.hdsize ≡ s.dev.hdsize
    → IsBmap (record s { dev = dev' })
IsBmap-dev {s} {dev'} m v e = record {
  device = v;
  count = m.count ∙ ap (λ t. t / 8 / 512 + 1) (sym e);
  fits = omega (arith, m.fits);
  memory = m.memory;
  bytes = m.bytes;
}

-- `write_from` brings the blocks of the bitmap from number `j` on to the disk, and only those.
write_from-part :
    (n j : ℕ) {s : Bmap}
    → IsBmap s
    → j + n ≡ s.num_bmap_blocks
    → (s' : Bmap) × (write_from n j s ≡ some s')
      × IsBmap s'
      × (s'.bmap ≡ s.bmap)
      × (s'.num_bmap_blocks ≡ s.num_bmap_blocks)
      × ((k : ℕ) → j ≤ k → k < j + n → s'.dev.sector (first_bmap_block + k) ≡ part s.bmap k)
      × ((k : ℕ)
          → (k < first_bmap_block + j) ⊎ (first_bmap_block + j + n ≤ k)
          → s'.dev.sector k ≡ s.dev.sector k)
unfolding write_from
write_from-part zero j {s} m e =
    (s, refl, m, refl, refl, λ k p q. absurd (omega arith), λ k p. refl)
write_from-part (suc n) j {s} m e =
    let long : block_size ≤ length (drop (j * 512) s.bmap) =
      omega (arith, block_size-eq, length-drop {0} (j * 512) s.bmap, m.memory) in
    let (dev', wrote_at, w) =
      wrt_block-Written m.device (first_bmap_block + j) (omega (arith, m.fits))
        (drop (j * 512) s.bmap) block_size long (le_refl block_size) in
    let (s', ran, valid, same, count, inside, outside) =
      write_from-part n (j + 1) {s = record s { dev = dev' }} (IsBmap-dev m w.valid w.same_size)
        (omega arith) in
    (
      s',
      rw wrote_at ran,
      valid,
      same,
      count,
      λ k p q. elim (ℕ_discrete k j) [
        | yes d ↦
            outside (first_bmap_block + k) (inl (omega arith))
            ∙ (w.at (first_bmap_block + k)
                ∙ (ground arith ∙ (padded-part s.bmap j ∙ ap (part s.bmap) (sym d))))
        | no ne ↦ inside k (omega arith) (omega arith)
      ],
      λ k p. outside k (omega arith) ∙ ground (arith, w.at k),
    )

-- `write_bmap` does not fault, keeps the bitmap in memory, makes the bitmap on disk equal to it, and
-- writes no block of the disk outside the bitmap's own.
pub write_bmap-Synced :
    {s : Bmap}
    → IsBmap s
    → (s' : Bmap) × (write_bmap s ≡ some s')
      × IsBmap s'
      × Synced s'
      × (s'.bmap ≡ s.bmap)
      × ((k : ℕ)
          → (k < first_bmap_block) ⊎ (first_bmap_block + s.num_bmap_blocks ≤ k)
          → s'.dev.sector k ≡ s.dev.sector k)
unfolding write_bmap
write_bmap-Synced {s} m =
    let (s', ran, valid, same, count, inside, outside) =
      write_from-part s.num_bmap_blocks 0 {s = s} m (omega arith) in
    (
      s',
      ran,
      valid,
      λ j h. inside j (omega arith) (omega (arith, count)) ∙ ap (λ b. part b j) (sym same),
      same,
      λ k p. outside k (omega arith),
    )
