-- ===== src/Klib/Numbers/Tests.antt =====
-- Runs on small texts.
use potatoes.Prelude.{ℕ, ◌-◌, ◌^◌, ◌≡◌, refl, some, List, [], ◌∷◌, arith, replicate}
use potatoes.Klib.Numbers.{itoa, atoi}
use potatoes.Klib.Numbers.Digits.{atoi-itoa}

-- -42 as 32 bits.
atoi-itoa_example :
    (r : List ℕ) × (itoa (2 ^ 32 - 42) (replicate 12 7) 10 ≡ some r) × (atoi r ≡ some (2 ^ 32 - 42))
atoi-itoa_example = atoi-itoa (2 ^ 32 - 42) (replicate 12 7) (omega arith) (omega arith)

-- " +17x" ends at the letter.
up_to_letter : atoi (32 ∷ 43 ∷ 49 ∷ 55 ∷ 120 ∷ 0 ∷ []) ≡ some 17
unfolding atoi
up_to_letter = refl
