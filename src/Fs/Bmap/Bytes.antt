-- ===== src/Fs/Bmap/Bytes.antt =====
-- Marking one bit of a byte by rotation, against the test of one bit.
use potatoes.Prelude.{
  ℕ, zero, suc, ◌<◌, ◌≡◌, refl, Bool, true, false, ◌&&◌, ◌==◌, if◌then◌else◌, arith,
}
use potatoes.Fs.Bmap.{mark_byte, byte_allocated}

-- `p` at every number below `n`.
every_below : ℕ → (ℕ → Bool) → Bool
every_below zero p = true
every_below (suc n) p = p n && every_below n p

every_below-at : (n : ℕ) (p : ℕ → Bool) {x : ℕ} → every_below n p ≡ true → x < n → p x ≡ true
unfolding every_below
every_below-at zero p h k = absurd (omega arith)
every_below-at (suc n) p {x} h k = ground (arith, every_below-at n p {x = x})

same : Bool → Bool → Bool
same true b = b
same false true = false
same false false = true

same-eq : (a b : Bool) → same a b ≡ true → a ≡ b
unfolding same
same-eq true true h = refl
same-eq true false h = cc
same-eq false true h = cc
same-eq false false h = refl

-- Marking bit `b` and testing bit `j`, for one byte: one case, all `j`, all `b` and `j`.
case_at : Bool → ℕ → ℕ → ℕ → Bool
unfolding same
case_at flag byte b j =
    same (byte_allocated (mark_byte byte b flag) j) (if j == b then flag else byte_allocated byte j)

all_j : Bool → ℕ → ℕ → Bool
unfolding every_below case_at
all_j flag byte b = every_below 8 (case_at flag byte b)

row : Bool → ℕ → Bool
unfolding all_j
row flag byte = every_below 8 (all_j flag byte)

rows_true : every_below 256 (row true) ≡ true
unfolding row mark_byte byte_allocated
rows_true = refl

rows_false : every_below 256 (row false) ≡ true
unfolding row mark_byte byte_allocated
rows_false = refl

-- After marking bit `b`, that bit is as asked, and every other bit is as before.
pub mark_byte-allocated :
    (flag : Bool) {byte : ℕ} (b j : ℕ)
    → byte < 256
    → b < 8
    → j < 8
    → byte_allocated (mark_byte byte b flag) j ≡ (if j == b then flag else byte_allocated byte j)
unfolding row
mark_byte-allocated flag {byte} b j p q r = same-eq _ _ (
    every_below-at 8 (case_at flag byte b) {x = j}
      (every_below-at 8 (all_j flag byte) {x = b} (rows flag) q) r)
  where
    rows : (f : Bool) → row f byte ≡ true
    rows true = every_below-at 256 (row true) {x = byte} rows_true p
    rows false = every_below-at 256 (row false) {x = byte} rows_false p

pub mark_byte-lt : (byte b : ℕ) (flag : Bool) → mark_byte byte b flag < 256
unfolding mark_byte
mark_byte-lt byte b flag = omega arith
