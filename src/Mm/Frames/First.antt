-- ===== src/Mm/Frames/First.antt =====
-- `first_free_frame` finds the least free frame.
use potatoes.Prelude.{
  ℕ, zero, suc, ◌+◌, ◌-◌, ◌*◌, ◌/◌, ◌%◌, ◌^◌, ◌≤◌, ◌<◌, ◌≡◌, refl, sym, ap, ap₂, ◌∙◌, Option, none,
  some, List, ◌==◌, get_or, length, arith, get_elem?-eq-get_or, Bool-cases, inl, inr, ==→eq, ==→ne,
  ◌⊎◌,
}
use native.Mathlib.Decide.{ℕ_discrete, dec_lt}
use mathlib.Core.Path.{subst}
use potatoes.Prelude.Bits.{bit, bit-le-one, bit-ones, and_test}
use potatoes.Mm.Frames.{Frames, free_bit, in_word, free_from, first_free_frame}
use potatoes.Mm.Frames.Used.{IsBitmap}

-- What the inner loop finds from bit `j` on with `n` rounds left.
abbrev FreeBit : ℕ → ℕ → ℕ → Option ℕ → Type 0
FreeBit w n j none = (k : ℕ) → j ≤ k → k < j + n → bit w k ≡ 1
FreeBit w n j (some f) =
    (j ≤ f) × (f < j + n) × (bit w f ≡ 0) × ((k : ℕ) → j ≤ k → k < f → bit w k ≡ 1)

free_bit-FreeBit : (w n j : ℕ) → FreeBit w n j (free_bit w n j)
unfolding free_bit
free_bit-FreeBit w zero j = λ k p q. absurd (omega arith)
free_bit-FreeBit w (suc n) j = elim (Bool-cases (bit w j == 0)) [
  | inl clear ↦
      rw (and_test w j, clear)
        (omega arith, omega arith, ==→eq (bit w j) 0 clear, λ k p q. absurd (omega arith))
  | inr is_set ↦
      rw (and_test w j, is_set)
        (later (free_bit w n (j + 1)) (omega (arith, bit-le-one w j, ==→ne (bit w j) 0 is_set))
          (free_bit-FreeBit w n (j + 1)))
]
  where
    later : (r : Option ℕ) → bit w j ≡ 1 → FreeBit w n (j + 1) r → FreeBit w (suc n) j r
    later none one h = λ k p q. elim (ℕ_discrete j k) [
      | yes e ↦ ap (bit w) (sym e) ∙ one
      | no ne ↦ h k (omega arith) (omega arith)
    ]
    later (some f) one (p, q, z, h) = (
      omega arith,
      omega arith,
      z,
      λ k r s. elim (ℕ_discrete j k) [
        | yes e ↦ ap (bit w) (sym e) ∙ one
        | no ne ↦ h k (omega arith) (omega arith)
      ],
    )

abbrev pub used_in : List ℕ → ℕ → ℕ
used_in ws k = bit (get_or ws (k / 32) 0) (k % 32)

abbrev pub AllUsed : List ℕ → ℕ → ℕ → Type 0
AllUsed ws lo hi = (k : ℕ) → lo ≤ k → k < hi → used_in ws k ≡ 1

-- `r` is the least free number from `lo` on below `hi`, or -1 where there is none.
abbrev pub FirstFree : List ℕ → ℕ → ℕ → ℕ → Type 0
FirstFree ws lo hi r =
    ((lo ≤ r) × (r < hi) × (used_in ws r ≡ 0) × AllUsed ws lo r)
    ⊎ ((r ≡ 2 ^ 32 - 1) × AllUsed ws lo hi)

module _ (ws : List ℕ) where
  -- The 32 numbers of word `i`.
  AllUsed-word :
      (i : ℕ)
      → ((j : ℕ) → 0 ≤ j → j < 32 → bit (get_or ws i 0) j ≡ 1)
      → AllUsed ws (i * 32) ((i + 1) * 32)
  AllUsed-word i full k p q =
      let e : k / 32 ≡ i = omega arith in
      ap (λ t. bit (get_or ws t 0) (k % 32)) e ∙ full (k % 32) (omega arith) (omega arith)

  AllUsed-append : (lo mid hi : ℕ) → AllUsed ws lo mid → AllUsed ws mid hi → AllUsed ws lo hi
  AllUsed-append lo mid hi a b k p q = elim (dec_lt k mid) [
    | yes h ↦ a k p h
    | no h ↦ b k (omega arith) q
  ]

  FirstFree-skip :
      (lo mid hi r : ℕ)
      → lo ≤ mid
      → AllUsed ws lo mid
      → FirstFree ws mid hi r
      → FirstFree ws lo hi r
  FirstFree-skip lo mid hi r h a (inl (p, q, z, b)) =
      inl (omega arith, q, z, AllUsed-append lo mid r a b)
  FirstFree-skip lo mid hi r h a (inr (e, b)) = inr (e, AllUsed-append lo mid hi a b)

  -- The search in one word: the rest of the search if the word has no free bit.
  word-FirstFree :
      (i hi r : ℕ) (o : Option ℕ)
      → i < 2 ^ 27
      → (i + 1) * 32 ≤ hi
      → FreeBit (get_or ws i 0) 32 0 o
      → FirstFree ws ((i + 1) * 32) hi r
      → (r' : ℕ) × (in_word i o (some r) ≡ some r') × FirstFree ws (i * 32) hi r'
  unfolding in_word
  word-FirstFree i hi r none small le full later = (
    r,
    refl,
    FirstFree-skip (i * 32) ((i + 1) * 32) hi r (omega arith) (AllUsed-word i full) later,
  )
  word-FirstFree i hi r (some j) small le (p, q, z, before) later =
      let row : (i * 32 + j) / 32 ≡ i = omega arith in
      let column : (i * 32 + j) % 32 ≡ j = omega arith in
      (
        i * 32 + j,
        ap some (omega arith),
        inl (
          omega arith,
          omega arith,
          ap₂ (λ s t. bit (get_or ws s 0) t) row column ∙ z,
          λ k s t.
              let e : k / 32 ≡ i = omega arith in
              ap (λ u. bit (get_or ws u 0) (k % 32)) e
              ∙ before (k % 32) (omega arith) (omega arith),
        ),
      )

  free_from-FirstFree :
      (n i : ℕ)
      → i + n ≤ length ws
      → i + n ≤ 2 ^ 27
      → (r : ℕ) × (free_from ws n i ≡ some r) × FirstFree ws (i * 32) ((i + n) * 32) r
  unfolding free_from
  free_from-FirstFree zero i h k = (2 ^ 32 - 1, refl, inr (refl, λ m p q. absurd (omega arith)))
  free_from-FirstFree (suc n) i h k =
      let (r, ran, first) = free_from-FirstFree n (i + 1) (omega arith) (omega arith) in
      let hi : (i + 1 + n) * 32 ≡ (i + suc n) * 32 = omega arith in
      let later : FirstFree ws ((i + 1) * 32) ((i + suc n) * 32) r =
        subst (λ t. FirstFree ws ((i + 1) * 32) t r) hi first in
      let here = get_elem?-eq-get_or ws i 0 (omega arith) in
      elim (Bool-cases (get_or ws i 0 == 0xffff_ffff)) [
        | inl full ↦
            let ones : (j : ℕ) → 0 ≤ j → j < 32 → bit (get_or ws i 0) j ≡ 1 = λ j p q.
              ap (λ w. bit w j) (==→eq (get_or ws i 0) 0xffff_ffff full) ∙ bit-ones 32 j q in
            (
              r,
              rw (here, full) ran,
              FirstFree-skip (i * 32) ((i + 1) * 32) _ r (omega arith) (AllUsed-word i ones) later,
            )
        | inr open_bit ↦
            let (r', e, found) =
              word-FirstFree i ((i + suc n) * 32) r (free_bit (get_or ws i 0) 32 0) (omega arith)
                (omega arith) (free_bit-FreeBit (get_or ws i 0) 32 0) later in
            (r', rw (here, open_bit, ran) e, found)
      ]

-- On a bitmap of at most 2 ^ 32 - 1 frames `first_free_frame` does not fault. It returns the least
-- free frame among those of the whole words (the first `nframes / 32 * 32`), or -1 exactly where all
-- of these are used.
pub first_free_frame-FirstFree :
    {fs : Frames}
    → IsBitmap fs
    → fs.nframes < 2 ^ 32
    → (r : ℕ) × (first_free_frame fs ≡ some r) × FirstFree fs.words 0 (fs.nframes / 32 * 32) r
unfolding first_free_frame
first_free_frame-FirstFree {fs} m small =
    let (r, ran, found) =
      free_from-FirstFree fs.words (fs.nframes / 32) 0 (omega (arith, m.enough)) (omega arith) in
    let whole : (0 + fs.nframes / 32) * 32 ≡ fs.nframes / 32 * 32 = omega arith in
    (r, ran, subst (λ t. FirstFree fs.words 0 t r) whole found)
