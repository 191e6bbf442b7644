-- ===== src/Klib/Strings/Tests.antt =====
-- Runs of the string functions, and their theorems at concrete texts.
use potatoes.Prelude.{ℕ, ◌≡◌, refl, List, [], ◌∷◌, some, arith}
use potatoes.Prelude.Int.{negsuc}
use potatoes.Klib.Strings.{strncat, strcmp}
use potatoes.Klib.Strings.Text.{IsText, cstr}

-- "ab" and "ac"
abbrev ab : List ℕ
ab = b'a' ∷ b'b' ∷ []

abbrev ac : List ℕ
ac = b'a' ∷ b'c' ∷ []

ab-IsText : IsText ab
ab-IsText = omega arith

ac-IsText : IsText ac
ac-IsText = omega arith

strcmp_signed : strcmp (0xe4 ∷ 0 ∷ []) (b'a' ∷ 0 ∷ []) ≡ some (negsuc 124)
unfolding strcmp
strcmp_signed = refl

-- Two bytes of "ab" leave the first text without a terminator of its own.
strncat_unterminated :
    strncat (b'x' ∷ 0 ∷ 7 ∷ 7 ∷ []) (cstr ab []) 2 ≡ some (b'x' ∷ b'a' ∷ b'b' ∷ 7 ∷ [], 1)
unfolding strncat
strncat_unterminated = refl
