-- ===== src/Mm/Frames/Used.antt =====
-- What `set_frame`, `clear_frame` and `test_frame` do to each frame's bit.
use potatoes.Prelude.{
  ℕ, ◌-◌, ◌/◌, ◌%◌, ◌^◌, ◌≤◌, ◌<◌, ◌≡◌, refl, ap, ◌∙◌, not, some, List, ◌==◌, if◌then◌else◌,
  get_elem?, get_or, set, length, arith, bit_and, bit_or, get_elem?-eq-get_or, get_or-set,
  length-set, Bool-cases, inl, inr, ==→eq, ==→ne,
}
use potatoes.Prelude.Bits.{
  bit, bit-le-one, bit-bit_or, bit-bit_and, bit-two_pow, bit-clear_mask, and_test, bit_or-lt,
  bit_and-lt, two_pow-lt,
}
use potatoes.Mm.Frames.{Frames, set_frame, clear_frame, test_frame}

-- 1 if the bit of frame number `k` is set, else 0.
abbrev pub used : Frames → ℕ → ℕ
used fs k = bit (get_or fs.words (k / 32) 0) (k % 32)

abbrev pub AllWords : List ℕ → Type 0
AllWords ws = (i : ℕ) → get_or ws i 0 < 2 ^ 32

-- The array holds the words that `nframes` asks for, each of 32 bits.
pub record IsBitmap (fs : Frames) : Type 0 where
  pub enough : fs.nframes / 32 ≤ length fs.words
  pub word_range : AllWords fs.words

-- The bitmap whose bit for frame `n` alone is given anew.
pub record Changed (fs : Frames) (n v : ℕ) (fs' : Frames) : Type 0 where
  pub same_size : fs'.nframes ≡ fs.nframes
  pub valid : IsBitmap fs'
  pub bits : (k : ℕ) → used fs' k ≡ (if k == n then v else used fs k)

module _ {fs : Frames} (m : IsBitmap fs) (addr : ℕ)
    (inside : addr / 0x1000 / 32 < length fs.words) where
  abbrev frame : ℕ
  frame = addr / 0x1000

  abbrev word : ℕ
  word = get_or fs.words (frame / 32) 0

  -- A word whose bit for the frame alone is given anew makes a bitmap with that change.
  abbrev with_word : ℕ → Frames
  with_word w = record fs { words = set fs.words (frame / 32) w }

  seen :
      (w k : ℕ)
      → get_or (set fs.words (frame / 32) w) (k / 32) 0
        ≡ (if frame / 32 == k / 32 then w else get_or fs.words (k / 32) 0)
  seen w k = get_or-set fs.words (frame / 32) (k / 32) w 0 inside

  with_word-bits :
      (w v : ℕ)
      → ((j : ℕ) → j < 32 → bit w j ≡ (if frame % 32 == j then v else bit word j))
      → (k : ℕ) → used (with_word w) k ≡ (if k == frame then v else used fs k)
  with_word-bits w v other k = elim (Bool-cases (frame / 32 == k / 32)) [
    | inl same ↦
        let e : frame / 32 ≡ k / 32 = ==→eq (frame / 32) (k / 32) same in
        let at : get_or (set fs.words (frame / 32) w) (k / 32) 0 ≡ w = ground (arith, seen w k) in
        ap (λ t. bit t (k % 32)) at
        ∙ (other (k % 32) (omega arith)
            ∙ ground (arith, ap (λ t. bit (get_or fs.words t 0) (k % 32)) e))
    | inr apart ↦
        let ne = ==→ne (frame / 32) (k / 32) apart in
        let at : get_or (set fs.words (frame / 32) w) (k / 32) 0 ≡ get_or fs.words (k / 32) 0 =
          ground (arith, seen w k) in
        ap (λ t. bit t (k % 32)) at ∙ ground arith
  ]

  with_word-Changed :
      (w v : ℕ)
      → w < 2 ^ 32
      → ((j : ℕ) → j < 32 → bit w j ≡ (if frame % 32 == j then v else bit word j))
      → Changed fs frame v (with_word w)
  with_word-Changed w v small other = record {
    same_size = refl;
    valid = record {
      enough = omega (arith, m.enough, length-set fs.words (frame / 32) w);
      word_range =
          λ i. ground (arith, get_or-set fs.words (frame / 32) i w 0 inside, m.word_range i);
    };
    bits = with_word-bits w v other;
  }

  word_at : get_elem? fs.words (frame / 32) ≡ some word
  word_at = get_elem?-eq-get_or fs.words (frame / 32) 0 inside

  -- `set_frame` sets the bit of the frame at its address, and no other.
  pub set_frame-Changed :
      (fs' : Frames) × (set_frame fs addr ≡ some fs') × Changed fs (addr / 0x1000) 1 fs'
  unfolding set_frame
  set_frame-Changed =
      let w = bit_or word (2 ^ (frame % 32)) in
      (
        with_word w,
        rw word_at (ground arith),
        with_word-Changed w 1
            (bit_or-lt 32 word (2 ^ (frame % 32)) (m.word_range (frame / 32))
              (two_pow-lt (frame % 32) 32 (omega arith)))
            λ j h. ground (
              arith,
              bit-bit_or word (2 ^ (frame % 32)) j,
              bit-two_pow (frame % 32) j,
              bit-le-one word j,
            ),
      )

  -- `clear_frame` clears the bit of the frame at its address, and no other.
  pub clear_frame-Changed :
      (fs' : Frames) × (clear_frame fs addr ≡ some fs') × Changed fs (addr / 0x1000) 0 fs'
  unfolding clear_frame
  clear_frame-Changed =
      let w = bit_and word (2 ^ 32 - 1 - 2 ^ (frame % 32)) in
      (
        with_word w,
        rw word_at (ground arith),
        with_word-Changed w 0
            (bit_and-lt 32 word (2 ^ 32 - 1 - 2 ^ (frame % 32)) (m.word_range (frame / 32)))
            λ j h. ground (
              arith,
              bit-bit_and word (2 ^ 32 - 1 - 2 ^ (frame % 32)) j,
              bit-clear_mask 32 (frame % 32) j (omega arith) h,
              bit-le-one word j,
            ),
      )

  -- `test_frame` tells whether that bit is set.
  pub test_frame-used : test_frame fs addr ≡ some (not (used fs (addr / 0x1000) == 0))
  unfolding test_frame
  test_frame-used = rw word_at (ap (λ t. some (not t)) (and_test word (frame % 32)))
