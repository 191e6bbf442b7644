-- ===== src/Fs/Bmap/Free.antt =====
-- `get_free_block` finds the first free block, and `alloc_block` marks it.
use potatoes.Prelude.{
  ℕ, zero, suc, ◌+◌, ◌-◌, ◌/◌, ◌^◌, ◌≤◌, ◌<◌, ◌≡◌, ◌⊎◌, inl, inr, ◌∙◌, sym, refl, ap, some, none,
  Bool, true, false, arith, length, get_elem?-none, Bool-cases,
}
use native.Mathlib.Decide.{ℕ_discrete}
use mathlib.Core.Path.{subst}
use potatoes.Fs.Bmap.{Bmap, not_found, mark_block, free_block_from, get_free_block, alloc_block}
use potatoes.Fs.Bmap.Mark.{
  allocated, IsBmap, Marked, mark_block-Marked, is_allocated_block-allocated,
}

abbrev pub AllAllocated : Bmap → ℕ → ℕ → Type 0
AllAllocated s lo hi = (k : ℕ) → lo ≤ k → k < hi → allocated s k ≡ true

-- `r` is the first free block from `lo` on below `hi`, or NOT_FOUND where there is none.
abbrev pub FirstFree : Bmap → ℕ → ℕ → ℕ → Type 0
FirstFree s lo hi r =
    ((lo ≤ r) × (r < hi) × (allocated s r ≡ false) × AllAllocated s lo r)
    ⊎ ((r ≡ not_found) × AllAllocated s lo hi)

-- `alloc_block` has given out the first free block from `start` on.
abbrev pub Taken : Bmap → ℕ → Type 0
Taken s start =
    (r : ℕ) × (s' : Bmap) × (alloc_block s start ≡ some (s', r))
    × (start ≤ r)
    × (r < s.dev.hdsize)
    × (allocated s r ≡ false)
    × AllAllocated s start r
    × Marked s r true s'

mark_block_outside :
    (s : Bmap) (b : ℕ) (flag : Bool) → length s.bmap ≤ b / 8 → mark_block s b flag ≡ none
unfolding mark_block
mark_block_outside s b flag h = rw (get_elem?-none s.bmap (b / 8) h)

module _ {s : Bmap} (m : IsBmap s) where
  skip : (lo hi r : ℕ) → allocated s lo ≡ true → FirstFree s (lo + 1) hi r → FirstFree s lo hi r
  skip lo hi r full (inl (p, q, z, a)) = inl (omega arith, q, z, extend lo r full a)
    where
      extend :
          (lo hi : ℕ) → allocated s lo ≡ true → AllAllocated s (lo + 1) hi → AllAllocated s lo hi
      extend lo hi full a k p q = elim (ℕ_discrete lo k) [
        | yes e ↦ ap (allocated s) (sym e) ∙ full
        | no ne ↦ a k (omega arith) q
      ]
  skip lo hi r full (inr (e, a)) = inr (
    e,
    λ k p q. elim (ℕ_discrete lo k) [
      | yes d ↦ ap (allocated s) (sym d) ∙ full
      | no ne ↦ a k (omega arith) q
    ],
  )

  free_block_from-FirstFree :
      (n lo : ℕ)
      → lo + n ≤ s.dev.hdsize
      → (r : ℕ) × (free_block_from s n lo ≡ some r) × FirstFree s lo (lo + n) r
  unfolding free_block_from
  free_block_from-FirstFree zero lo h = (not_found, refl, inr (refl, λ k p q. absurd (omega arith)))
  free_block_from-FirstFree (suc n) lo h = elim (Bool-cases (allocated s lo)) [
    | inl full ↦
        let (r, ran, found) = free_block_from-FirstFree n (lo + 1) (omega arith) in
        let hi : lo + 1 + n ≡ lo + suc n = omega arith in
        (
          r,
          rw (is_allocated_block-allocated lo m (omega arith), full) ran,
          skip lo (lo + suc n) r full (subst (λ t. FirstFree s (lo + 1) t r) hi found),
        )
    | inr free ↦ (
      lo,
      rw (is_allocated_block-allocated lo m (omega arith), free) refl,
      inl (omega arith, omega arith, free, λ k p q. absurd (omega arith)),
    )
  ]

  -- `get_free_block` from a block of the disk on does not fault, and returns the first free block
  -- from there on, or NOT_FOUND where all of them are allocated.
  pub get_free_block-FirstFree :
      (start : ℕ)
      → start ≤ s.dev.hdsize
      → (r : ℕ) × (get_free_block s start ≡ some r) × FirstFree s start s.dev.hdsize r
  unfolding get_free_block
  get_free_block-FirstFree start h =
      let (r, ran, found) = free_block_from-FirstFree (s.dev.hdsize - start) start (omega arith) in
      let hi : start + (s.dev.hdsize - start) ≡ s.dev.hdsize = omega arith in
      (r, ran, subst (λ t. FirstFree s start t r) hi found)

  -- Where a block `k` is free, `alloc_block` from any block up to `k` on finds one.
  pub alloc_block-Taken :
      (start k : ℕ) → start ≤ k → k < s.dev.hdsize → allocated s k ≡ false → Taken s start
  unfolding alloc_block
  alloc_block-Taken start k from under free = found (get_free_block-FirstFree start (omega arith))
    where
      found :
          (r : ℕ) × (get_free_block s start ≡ some r) × FirstFree s start s.dev.hdsize r
          → Taken s start
      found (r, ran, inl (p, q, z, a)) =
          let (s', marked, change) = mark_block-Marked m r q true in
          (r, s', rw (ran, marked) refl, p, q, z, a, change)
      found (r, ran, inr (e, a)) = let full = a k from under in absurd (cc (full, free))

  -- `alloc_block` from a block of the disk on either returns the first free block from there on,
  -- with that block and no other marked as allocated, in memory and on disk; or all of these blocks
  -- are allocated, and then it goes out of the bitmap, at the bit of block NOT_FOUND.
  pub alloc_block_lem :
      (start : ℕ)
      → start ≤ s.dev.hdsize
      → length s.bmap ≤ 2 ^ 29 - 1
      → Taken s start ⊎ (AllAllocated s start s.dev.hdsize × (alloc_block s start ≡ none))
  unfolding alloc_block
  alloc_block_lem start h small = found (get_free_block-FirstFree start h)
    where
      outside : mark_block s not_found true ≡ none
      outside = mark_block_outside s not_found true (omega arith)

      found :
          (r : ℕ) × (get_free_block s start ≡ some r) × FirstFree s start s.dev.hdsize r
          → Taken s start ⊎ (AllAllocated s start s.dev.hdsize × (alloc_block s start ≡ none))
      found (r, ran, inl (p, q, z, a)) =
          let (s', marked, change) = mark_block-Marked m r q true in
          inl (r, s', rw (ran, marked) refl, p, q, z, a, change)
      found (r, ran, inr (e, a)) = inr (a, rw (ran, e) (rw outside refl))
