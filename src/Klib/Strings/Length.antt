-- ===== src/Klib/Strings/Length.antt =====
-- `strlen` and `strchr`.
use potatoes.Prelude.{
  ℕ, zero, suc, ◌≡◌, ◌≢◌, inl, inr, refl, List, [], ◌∷◌, ◌++◌, ◌==◌, Option, some, none, ◌>>=◌,
  length, ne→==, ==→eq, ==→ne, Bool-cases,
}
use potatoes.Klib.Strings.{strlen, strchr}
use potatoes.Klib.Strings.Text.{IsText, cstr}

-- `strlen` counts the bytes before the terminator.
pub strlen-length : (s rest : List ℕ) → IsText s → strlen (cstr s rest) ≡ some (length s)
unfolding strlen
strlen-length [] rest t = refl
strlen-length (c ∷ s) rest t = rw (ne→== c 0 t.0, strlen-length s rest t.2)

-- `i` is the first place of `ch` in `s`.
abbrev pub FirstAt : List ℕ → ℕ → ℕ → Type 0
FirstAt [] ch i = ⊥
FirstAt (c ∷ s) ch zero = c ≡ ch
FirstAt (c ∷ s) ch (suc i) = (c ≢ ch) × FirstAt s ch i

abbrev pub Absent : List ℕ → ℕ → Type 0
Absent [] ch = Unit
Absent (c ∷ s) ch = (c ≢ ch) × Absent s ch

-- What `strchr` returns: the first place of the byte in the text with its terminator, or NULL where
-- the byte is in neither.
abbrev pub Found : List ℕ → ℕ → Option ℕ → Type 0
Found s ch none = Absent (s ++ (0 ∷ [])) ch
Found s ch (some i) = FirstAt (s ++ (0 ∷ [])) ch i

-- `strchr` finds the first place of a byte in a text, the terminator included, and returns NULL
-- exactly where the byte does not occur.
pub strchr-Found :
    (s rest : List ℕ) (ch : ℕ)
    → IsText s
    → (p : Option ℕ) × (strchr (cstr s rest) ch ≡ some p) × Found s ch p
unfolding strchr
strchr-Found [] rest ch t = elim (Bool-cases (0 == ch)) [
  | inl hit ↦ (some 0, rw hit refl, ==→eq 0 ch hit)
  | inr miss ↦ (none, rw miss refl, (==→ne 0 ch miss, tt))
]
strchr-Found (c ∷ s) rest ch t = elim (Bool-cases (c == ch)) [
  | inl hit ↦ (some 0, rw hit refl, ==→eq c ch hit)
  | inr miss ↦
      let (p, ran, found) = strchr-Found s rest ch t.2 in
      (
        p >>= (λ i. some (suc i)),
        rw (miss, ne→== c 0 t.0, ran) refl,
        further p found (==→ne c ch miss),
      )
]
  where
    further : (p : Option ℕ) → Found s ch p → c ≢ ch → Found (c ∷ s) ch (p >>= (λ i. some (suc i)))
    further none found ne = (ne, found)
    further (some i) found ne = (ne, found)
