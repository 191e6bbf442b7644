-- ===== src/Klib/Strings/Text.antt =====
-- A text in memory: bytes other than zero, the terminator, and whatever follows.
use potatoes.Prelude.{ℕ, ◌≢◌, ◌<◌, List, [], ◌∷◌, ◌++◌}

-- The bytes of a text.
abbrev pub IsText : List ℕ → Type 0
IsText [] = Unit
IsText (c ∷ s) = (c ≢ 0) × (c < 256) × IsText s

abbrev pub cstr : List ℕ → List ℕ → List ℕ
cstr s rest = s ++ (0 ∷ rest)
