-- ===== src/Klib/Strings/Copy.antt =====
-- `strcpy`, `strncpy` and `strcat`.
use potatoes.Prelude.{
  ℕ, zero, suc, ◌-◌, ◌<◌, ◌≤◌, ◌≡◌, refl, sym, ap, ◌∙◌, List, [], ◌∷◌, ◌++◌, append_assoc, true,
  some, arith, length, length-append, ne→==, leb, drop, take, replicate,
}
use potatoes.Klib.Strings.{strcpy, strncpy, strchr, strcat}
use potatoes.Klib.Strings.Text.{IsText, cstr}

-- `strcpy` copies a text and its terminator over the front of the destination.
pub strcpy-cstr :
    (s rest dest : List ℕ)
    → IsText s
    → length s < length dest
    → strcpy dest (cstr s rest) ≡ some (cstr s (drop (suc (length s)) dest))
unfolding strcpy
strcpy-cstr s rest [] t h = absurd (omega arith)
strcpy-cstr [] rest (d ∷ dest) t h = refl
strcpy-cstr (c ∷ s) rest (d ∷ dest) t h =
    rw (ne→== c 0 t.0, strcpy-cstr s rest dest t.2 (omega arith))

strncpy-zeros :
    (rest dest : List ℕ) (n : ℕ)
    → n ≤ length dest
    → strncpy dest (0 ∷ rest) n ≡ some (replicate n 0 ++ drop n dest)
unfolding strncpy
strncpy-zeros rest dest zero h = refl
strncpy-zeros rest [] (suc n) h = absurd (omega arith)
strncpy-zeros rest (d ∷ dest) (suc n) h = rw (strncpy-zeros rest dest n (omega arith))

-- `strncpy` writes exactly `n` bytes: the first `n` bytes of the text, filled up with zeros. Where
-- the text has `n` bytes or more it writes no terminator.
pub strncpy-take :
    (s rest dest : List ℕ) (n : ℕ)
    → IsText s
    → n ≤ length dest
    → strncpy dest (cstr s rest) n ≡ some (take n s ++ (replicate (n - length s) 0 ++ drop n dest))
unfolding strncpy
strncpy-take s rest dest zero t h =
    let e : 0 ≡ 0 - length s = omega arith in ap (λ k. some (replicate k 0 ++ dest)) e
strncpy-take s rest [] (suc n) t h = absurd (omega arith)
strncpy-take [] rest (d ∷ dest) (suc n) t h =
    let e : suc n ≡ suc n - 0 = omega arith in
    strncpy-zeros rest (d ∷ dest) (suc n) h ∙ ap (λ k. some (replicate k 0 ++ drop n dest)) e
strncpy-take (c ∷ s) rest (d ∷ dest) (suc n) t h =
    let e : n - length s ≡ suc n - suc (length s) = omega arith in
    rw (ne→== c 0 t.0, strncpy-take s rest dest n t.2 (omega arith))
      (ap (λ k. some (c ∷ (take n s ++ (replicate k 0 ++ drop n dest)))) e)

terminator : (s rest : List ℕ) → IsText s → strchr (cstr s rest) 0 ≡ some (some (length s))
unfolding strchr
terminator [] rest t = refl
terminator (c ∷ s) rest t = rw (ne→== c 0 t.0, terminator s rest t.2)

drop-front : (s r : List ℕ) → drop (length s) (s ++ r) ≡ r
drop-front [] r = refl
drop-front (c ∷ s) r = drop-front s r

take-front : (s r : List ℕ) → take (length s) (s ++ r) ≡ s
take-front [] r = refl
take-front (c ∷ s) r = ap (λ t. c ∷ t) (take-front s r)

-- `strcat` appends the second text to the first, if the memory behind the first has room. The
-- pointer that it returns is not to the concatenated text, but to the copy of the second one
-- within it.
pub strcat-append :
    (s t rest other : List ℕ)
    → IsText s
    → IsText t
    → length t ≤ length rest
    → strcat (cstr s rest) (cstr t other) ≡ some (cstr (s ++ t) (drop (length t) rest), length s)
unfolding strcat
strcat-append s t rest other p q h =
    rw
      (
        terminator s rest p,
        inside,
        drop-front s (0 ∷ rest),
        take-front s (0 ∷ rest),
        strcpy-cstr t other (0 ∷ rest) q (omega arith),
      )
      (ap (λ m. some (m, length s)) (sym (append_assoc s t (0 ∷ drop (length t) rest))))
  where
    inside : leb (length s) (length (cstr s rest)) ≡ true
    inside = ground (arith, length-append s (0 ∷ rest))
