-- ===== src/Klib/Memory/Tests.antt =====
-- Runs of the memory functions.
use potatoes.Prelude.{◌≡◌, refl, [], ◌∷◌, some}
use potatoes.Klib.Memory.{memset}

memset_front : memset (1 ∷ 2 ∷ 3 ∷ []) 7 2 ≡ some (7 ∷ 7 ∷ 3 ∷ [])
unfolding memset
memset_front = refl
