-- ===== src/Klib/Strings/Compare.antt =====
-- `strcmp`.
use potatoes.Prelude.{
  ℕ, ◌<◌, ◌≡◌, ◌↔◌, refl, sym, ap, ap₂, ◌∙◌, List, [], ◌∷◌, ◌==◌, some, if◌then◌else◌, arith, ne→==,
  eq→==, ==→eq, ==→ne, Bool-cases, inl, inr,
}
use potatoes.Prelude.Int.{ℤ, pos}
use potatoes.Klib.Strings.{char_diff, strcmp}
use potatoes.Klib.Strings.Text.{IsText, cstr}

-- What `strcmp` returns: the difference of the first two bytes that differ, where the terminator
-- counts as a byte, and 0 where the texts are equal.
pub difference : List ℕ → List ℕ → ℤ
difference [] [] = pos 0
difference [] (b ∷ t) = char_diff 0 b
difference (a ∷ s) [] = char_diff a 0
difference (a ∷ s) (b ∷ t) = if a == b then difference s t else char_diff a b

char_diff-zero : (a b : ℕ) → a < 256 → b < 256 → char_diff a b ≡ pos 0 → a ≡ b
unfolding char_diff
char_diff-zero a b p q e = ground arith

strcmp-difference :
    (s t r q : List ℕ) → IsText s → IsText t → strcmp (cstr s r) (cstr t q) ≡ some (difference s t)
unfolding strcmp difference
strcmp-difference [] [] r q p k = refl
strcmp-difference [] (b ∷ t) r q p k = refl
strcmp-difference (a ∷ s) [] r q p k = rw (ne→== a 0 p.0) refl
strcmp-difference (a ∷ s) (b ∷ t) r q p k = elim (Bool-cases (a == b)) [
  | inl same ↦ rw (ne→== a 0 p.0, ne→== b 0 k.0, same) (strcmp-difference s t r q p.2 k.2)
  | inr other ↦ rw (ne→== a 0 p.0, ne→== b 0 k.0, other) refl
]

difference_self : (s : List ℕ) → difference s s ≡ pos 0
unfolding difference
difference_self [] = refl
difference_self (a ∷ s) = rw (eq→== a a refl) (difference_self s)

difference-zero : (s t : List ℕ) → IsText s → IsText t → difference s t ≡ pos 0 → s ≡ t
unfolding difference
difference-zero [] [] p q e = refl
difference-zero [] (b ∷ t) p q e = absurd (q.0 (sym (char_diff-zero 0 b (omega arith) q.1 e)))
difference-zero (a ∷ s) [] p q e = absurd (p.0 (char_diff-zero a 0 p.1 (omega arith) e))
difference-zero (a ∷ s) (b ∷ t) p q e = elim (Bool-cases (a == b)) [
  | inl same ↦ ap₂ ◌∷◌ (==→eq a b same) (difference-zero s t p.2 q.2 (rw same at e))
  | inr other ↦ absurd (==→ne a b other (char_diff-zero a b p.1 q.1 (rw other at e)))
]

-- `strcmp` of two texts does not fault, returns the difference of the first bytes that differ, and
-- returns 0 exactly where the texts are equal, whatever follows them in memory.
pub strcmp-zero_iff :
    (s t r q : List ℕ)
    → IsText s
    → IsText t
    → (strcmp (cstr s r) (cstr t q) ≡ some (difference s t)) × ((difference s t ≡ pos 0) ↔ (s ≡ t))
strcmp-zero_iff s t r q p k = (
  strcmp-difference s t r q p k,
  (difference-zero s t p k, λ e. ap (difference s) (sym e) ∙ difference_self s),
)
