-- ===== src/Prelude/Bits/Step.antt =====
-- How `|` and `&` act on the lowest bit and on the bits above it. The native operations recur on
-- binary digits with a count of digits to go; a larger count makes no difference.
use Prim.Native.Nat.{
  ℕ, zero, suc, ◌+◌, ◌*◌, ◌/◌, ◌%◌, ◌≤◌, min, max, bit_and, bit_or, digits, bit_and-bitwise,
  bit_or-bitwise,
}
use mathlib.Core.Path.{◌≡◌, refl, ap, ◌∙◌}
use native.Mathlib.Decide.{ℕ_discrete}
use native.Mathlib.Nat.{le_refl}
use native.Mathlib.Omega.{arith}

module _ (last : ℕ → ℕ) (op : ℕ → ℕ → ℕ) where
  abbrev above : ℕ → ℕ → ℕ → ℕ
  above n a b = digits last op n (a / 2) (b / 2)

  one_digit_more : (n a b : ℕ) → a ≤ n → digits last op (suc n) a b ≡ digits last op n a b
  one_digit_more zero zero b h = refl
  one_digit_more (suc n) zero b h = refl
  one_digit_more zero (suc a) b h = absurd (omega arith)
  one_digit_more (suc n) (suc a) b h =
      let rec = one_digit_more n (suc a / 2) (b / 2) (omega arith) in
      ap (λ t. t * 2 + op (suc a % 2) (b % 2)) rec

  count_down : (n m a b : ℕ) → a ≤ m → m ≤ n → digits last op n a b ≡ digits last op m a b
  count_down zero m a b h k = let e : 0 ≡ m = omega arith in ap (λ t. digits last op t a b) e
  count_down (suc n) m a b h k = elim (ℕ_discrete (suc n) m) [
    | yes e ↦ ap (λ t. digits last op t a b) e
    | no ne ↦ one_digit_more n a b (omega arith) ∙ count_down n m a b h (omega arith)
  ]

  lowest :
      (a b : ℕ)
      → digits last op (suc a) (suc a) b ≡ above (suc a / 2) (suc a) b * 2 + op (suc a % 2) (b % 2)
  lowest a b =
      let fewer = count_down a (suc a / 2) (suc a / 2) (b / 2) (le_refl _) (omega arith) in
      ap (λ t. t * 2 + op (suc a % 2) (b % 2)) fewer

pub halves_or :
    (a b : ℕ) → (bit_or a b / 2 ≡ bit_or (a / 2) (b / 2)) × (bit_or a b % 2 ≡ max (a % 2) (b % 2))
halves_or zero b = simp bit_or-bitwise (omega arith)
halves_or (suc a) b = simp bit_or-bitwise (omega (arith, lowest (λ y. y) max a b))

pub halves_and :
    (a b : ℕ)
    → (bit_and a b / 2 ≡ bit_and (a / 2) (b / 2)) × (bit_and a b % 2 ≡ min (a % 2) (b % 2))
halves_and zero b = simp bit_and-bitwise (omega arith)
halves_and (suc a) b = simp bit_and-bitwise (omega (arith, lowest (λ y. 0) min a b))

pub zero-bit_and : (b : ℕ) → bit_and 0 b ≡ 0
zero-bit_and b = simp bit_and-bitwise

no_bits_in_common : (n a : ℕ) → a ≤ n → bit_and a 0 ≡ 0
no_bits_in_common n zero h = zero-bit_and 0
no_bits_in_common zero (suc a) h = absurd (omega arith)
no_bits_in_common (suc n) (suc a) h =
    let upper = no_bits_in_common n (suc a / 2) (omega arith) in
    omega (arith, halves_and (suc a) 0, upper)

pub bit_and-zero : (a : ℕ) → bit_and a 0 ≡ 0
bit_and-zero a = no_bits_in_common a a (omega arith)
