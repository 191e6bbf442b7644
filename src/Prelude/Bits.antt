-- ===== src/Prelude/Bits.antt =====
-- The bits of a number, and what `|`, `&`, `1 << k` and `~(1 << k)` do to each of them.
mod Step
use Step.{halves_or, halves_and, zero-bit_and, bit_and-zero}
use native.Mathlib.Nat.{two-pow-succ, one-le-pow}
use Prim.Native.Nat.{
  ℕ, zero, suc, ◌+◌, ◌-◌, ◌*◌, ◌/◌, ◌%◌, ◌^◌, ◌≤◌, ◌<◌, min, max, bit_and, bit_or,
}
use mathlib.Core.Path.{◌≡◌, refl, sym, ◌∙◌, ap}
use native.Mathlib.Omega.{arith}
use potatoes.Prelude.Tests.{◌==◌, if◌then◌else◌, Bool-cases, eq→==, ne→==, ==→eq, ==→ne}
use mathlib.Core.Logic.{inl, inr}

-- Bit `k` of `w`, as 0 or 1.
abbrev pub bit : ℕ → ℕ → ℕ
bit w zero = w % 2
bit w (suc k) = bit (w / 2) k

pub bit-le-one : (w k : ℕ) → bit w k ≤ 1
bit-le-one w zero = omega arith
bit-le-one w (suc k) = bit-le-one (w / 2) k

bit-zero : (k : ℕ) → bit 0 k ≡ 0
bit-zero zero = refl
bit-zero (suc k) = bit-zero k

pub bit-bit_or : (a b k : ℕ) → bit (bit_or a b) k ≡ max (bit a k) (bit b k)
bit-bit_or a b zero = omega (arith, halves_or a b)
bit-bit_or a b (suc k) = ap (λ t. bit t k) half ∙ bit-bit_or (a / 2) (b / 2) k
  where
    half : bit_or a b / 2 ≡ bit_or (a / 2) (b / 2)
    half = omega (arith, halves_or a b)

pub bit-bit_and : (a b k : ℕ) → bit (bit_and a b) k ≡ min (bit a k) (bit b k)
bit-bit_and a b zero = omega (arith, halves_and a b)
bit-bit_and a b (suc k) = ap (λ t. bit t k) half ∙ bit-bit_and (a / 2) (b / 2) k
  where
    half : bit_and a b / 2 ≡ bit_and (a / 2) (b / 2)
    half = omega (arith, halves_and a b)

-- `1 << j` has bit `j` alone.
pub bit-two_pow : (j k : ℕ) → bit (2 ^ j) k ≡ (if j == k then 1 else 0)
bit-two_pow zero zero = refl
bit-two_pow zero (suc k) = ground (arith, bit-zero k)
bit-two_pow (suc j) zero = ground (arith, two-pow-succ j)
bit-two_pow (suc j) (suc k) = ap (λ t. bit t k) half ∙ ground (arith, bit-two_pow j k)
  where
    half : 2 ^ suc j / 2 ≡ 2 ^ j
    half = omega (arith, two-pow-succ j)

pub bit-ones : (n k : ℕ) → k < n → bit (2 ^ n - 1) k ≡ 1
bit-ones zero k h = absurd (omega arith)
bit-ones (suc n) zero h = omega (arith, two-pow-succ n, one-le-pow n 2)
bit-ones (suc n) (suc k) h = ap (λ t. bit t k) half ∙ bit-ones n k (omega arith)
  where
    half : (2 ^ suc n - 1) / 2 ≡ 2 ^ n - 1
    half = omega (arith, two-pow-succ n, one-le-pow n 2)

pub two_pow-lt : (i m : ℕ) → i < m → 2 ^ i < 2 ^ m
two_pow-lt i zero h = absurd (omega arith)
two_pow-lt zero (suc m) h = omega (arith, two-pow-succ m, one-le-pow m 2)
two_pow-lt (suc i) (suc m) h =
    omega (arith, two-pow-succ m, two-pow-succ i, two_pow-lt i m (omega arith))

-- `~(1 << j)` in `n` bits has every bit but `j`.
pub bit-clear_mask :
    (n j k : ℕ) → j < n → k < n → bit (2 ^ n - 1 - 2 ^ j) k ≡ (if j == k then 0 else 1)
bit-clear_mask zero j k p q = absurd (omega arith)
bit-clear_mask (suc n) zero zero p q = omega (arith, two-pow-succ n, one-le-pow n 2)
bit-clear_mask (suc n) zero (suc k) p q =
    ap (λ t. bit t k) half ∙ ground (arith, bit-ones n k (omega arith))
  where
    half : (2 ^ suc n - 1 - 2 ^ 0) / 2 ≡ 2 ^ n - 1
    half = omega (arith, two-pow-succ n, one-le-pow n 2)
bit-clear_mask (suc n) (suc j) zero p q =
    ground (arith, two-pow-succ n, two-pow-succ j, two_pow-lt j n (omega arith))
bit-clear_mask (suc n) (suc j) (suc k) p q =
    ap (λ t. bit t k) half ∙ ground (arith, bit-clear_mask n j k (omega arith) (omega arith))
  where
    half : (2 ^ suc n - 1 - 2 ^ suc j) / 2 ≡ 2 ^ n - 1 - 2 ^ j
    half = omega (arith, two-pow-succ n, two-pow-succ j, one-le-pow n 2)

-- A word all of whose bits are set.
pub all_ones : (n w : ℕ) → w < 2 ^ n → ((k : ℕ) → k < n → bit w k ≡ 1) → w ≡ 2 ^ n - 1
all_ones zero w h bits = omega arith
all_ones (suc n) w h bits = omega (
  arith,
  two-pow-succ n,
  one-le-pow n 2,
  bits 0 (omega arith),
  all_ones n (w / 2) (omega (arith, two-pow-succ n)) (λ k p. bits (suc k) (omega arith)),
)

pub bit_or-lt : (n a b : ℕ) → a < 2 ^ n → b < 2 ^ n → bit_or a b < 2 ^ n
bit_or-lt zero a b p q =
    let e : a ≡ 0 = omega arith in let e' : b ≡ 0 = omega arith in rw (e, e') (omega arith)
bit_or-lt (suc n) a b p q = omega (
  arith,
  two-pow-succ n,
  halves_or a b,
  bit_or-lt n (a / 2) (b / 2) (omega (arith, two-pow-succ n)) (omega (arith, two-pow-succ n)),
)

pub bit_and-lt : (n a b : ℕ) → a < 2 ^ n → bit_and a b < 2 ^ n
bit_and-lt zero a b p =
    let e : a ≡ 0 = omega arith in rw e (omega (arith, halves_and 0 b, zero-bit_and b))
bit_and-lt (suc n) a b p = omega (
  arith,
  two-pow-succ n,
  halves_and a b,
  bit_and-lt n (a / 2) (b / 2) (omega (arith, two-pow-succ n)),
)

-- The test `w & (1 << k)` of C is bit `k`.
pub bit_and-two_pow : (w k : ℕ) → bit_and w (2 ^ k) ≡ bit w k * 2 ^ k
bit_and-two_pow w zero = omega (arith, halves_and w 1, bit_and-zero (w / 2))
bit_and-two_pow w (suc k) = omega (
  arith,
  two-pow-succ k,
  halves_and w (2 ^ suc k),
  ap (λ t. bit_and (w / 2) t) half,
  bit_and-two_pow (w / 2) k,
  ap (λ t. bit (w / 2) k * t) (two-pow-succ k),
)
  where
    half : 2 ^ suc k / 2 ≡ 2 ^ k
    half = omega (arith, two-pow-succ k)

-- The same as Boolean tests.
pub and_test : (w k : ℕ) → (bit_and w (2 ^ k) == 0) ≡ (bit w k == 0)
and_test w k = elim (Bool-cases (bit w k == 0)) [
  | inl clear ↦
      eq→== (bit_and w (2 ^ k)) 0
        (bit_and-two_pow w k ∙ (ap (λ t. t * 2 ^ k) (==→eq (bit w k) 0 clear) ∙ omega arith))
      ∙ sym clear
  | inr is_set ↦
      let one : bit w k ≡ 1 = omega (arith, bit-le-one w k, ==→ne (bit w k) 0 is_set) in
      ne→== (bit_and w (2 ^ k)) 0
        (omega (arith, bit_and-two_pow w k, ap (λ t. t * 2 ^ k) one, one-le-pow k 2))
      ∙ sym is_set
]

-- The number without its `k` lowest bits, and with `k` zeros behind.
abbrev pub halve : ℕ → ℕ → ℕ
halve zero a = a
halve (suc k) a = halve k (a / 2)

abbrev pub double : ℕ → ℕ → ℕ
double zero a = a
double (suc k) a = double k a * 2

-- A mask with `k` zeros at its end acts on the number without its `k` lowest bits.
pub bit_and-double : (k a m : ℕ) → bit_and a (double k m) ≡ double k (bit_and (halve k a) m)
bit_and-double zero a m = refl
bit_and-double (suc k) a m =
    let inner = bit_and-double k (a / 2) m in
    let even : double k m * 2 / 2 ≡ double k m = omega arith in
    let both = ap (bit_and (a / 2)) even ∙ inner in
    omega (arith, halves_and a (double k m * 2), both)

pub bit_and-ones : (n a : ℕ) → a < 2 ^ n → bit_and a (2 ^ n - 1) ≡ a
bit_and-ones zero a h = let e : a ≡ 0 = omega arith in bit_and-zero a ∙ sym e
bit_and-ones (suc n) a h =
    let half : (2 ^ suc n - 1) / 2 ≡ 2 ^ n - 1 = omega (arith, two-pow-succ n, one-le-pow n 2) in
    let inner =
      ap (bit_and (a / 2)) half ∙ bit_and-ones n (a / 2) (omega (arith, two-pow-succ n)) in
    omega (arith, halves_and a (2 ^ suc n - 1), inner, two-pow-succ n, one-le-pow n 2)
