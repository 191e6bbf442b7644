-- ===== src/Klib/Strings.antt =====
-- The string functions of src/kernel/lib/string.c. A string is the memory from its pointer on, a
-- list of bytes; running off the end of the memory is a fault, `none`. An offset from the pointer
-- stands for a pointer into the string.
pub mod Text
pub mod Length
pub mod Copy
pub mod Find
pub mod Compare
mod Tests
use potatoes.Prelude.{
  ℕ, zero, suc, ◌+◌, ◌%◌, Bool, ◌||◌, not, Option, none, some, List, [], ◌∷◌, ◌++◌, ◌==◌, ltb,
  if◌then◌else◌, ◌>>=◌, take, drop, length,
}
use potatoes.Prelude.Int.{ℤ, pos, sub_ℕ}
use potatoes.Klib.Memory.{from_address}

-- The count is below the size of the memory, so that `uint32` does not wrap.
pub strlen : List ℕ → Option ℕ
strlen [] = none
strlen (c ∷ str) = if c == 0 then some 0 else (strlen str >>= (λ n. some (suc n)))

pub strcpy : List ℕ → List ℕ → Option (List ℕ)
strcpy [] src = none
strcpy (d ∷ dest) [] = none
strcpy (d ∷ dest) (c ∷ src) =
    if c == 0 then some (0 ∷ dest) else (strcpy dest src >>= (λ r. some (c ∷ r)))

-- At the end of the source the pointer stays there.
pub strncpy : List ℕ → List ℕ → ℕ → Option (List ℕ)
strncpy dest src zero = some dest
strncpy [] src (suc n) = none
strncpy (d ∷ dest) [] (suc n) = none
strncpy (d ∷ dest) (c ∷ src) (suc n) =
    strncpy dest (if c == 0 then c ∷ src else src) n >>= (λ r. some (c ∷ r))

-- `some none` is NULL.
pub strchr : List ℕ → ℕ → Option (Option ℕ)
strchr [] ch = none
strchr (c ∷ str) ch =
    let rest = strchr str ch >>= (λ p. some (p >>= (λ i. some (suc i)))) in
    if c == ch then some (some 0) else if c == 0 then some none else rest

-- The memory after the call and the returned pointer, which is that of `strcpy`.
pub strcat : List ℕ → List ℕ → Option (List ℕ × ℕ)
unfolding strchr strcpy
strcat s1 s2 = do
  p ← strchr s1 0
  end ← p
  r ← from_address s1 end (λ dest. strcpy dest s2)
  some (r, end)

pub strncat : List ℕ → List ℕ → ℕ → Option (List ℕ × ℕ)
unfolding strchr strncpy
strncat s1 s2 n = do
  p ← strchr s1 0
  end ← p
  r ← from_address s1 end (λ dest. strncpy dest s2 n)
  some (r, end)

-- The memory from `*str_ptr` on goes in. Out come the token, with the memory behind its terminator
-- cut off, and the memory at the new `*str_ptr`; `none` within them is NULL.
pub strsep : Option (List ℕ) → ℕ → Option (Option (List ℕ) × Option (List ℕ))
unfolding strchr
strsep none delim = some (none, none)
strsep (some str) delim = strchr str delim >>= (λ p. some (elim p [
  | none ↦ (some str, none)
  | some offs ↦ (some (take offs str ++ (0 ∷ [])), some (drop (suc offs) str))
]))

-- `*s1 - *s2`, where a `char` is signed.
pub char_diff : ℕ → ℕ → ℤ
char_diff a b = sub_ℕ ((a + 128) % 256) ((b + 128) % 256)

pub strcmp : List ℕ → List ℕ → Option ℤ
unfolding char_diff
strcmp [] s2 = none
strcmp (a ∷ s1) [] = none
strcmp (a ∷ s1) (b ∷ s2) =
    let rest = strcmp s1 s2 in
    if a == 0 || (b == 0 || not (a == b)) then some (char_diff a b) else rest
