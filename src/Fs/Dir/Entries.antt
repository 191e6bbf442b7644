-- ===== src/Fs/Dir/Entries.antt =====
-- The operations on a block of directory entries refine those of a map from names to blocks.
use potatoes.Prelude.{
  ℕ, zero, suc, ◌-◌, ◌≤◌, ◌<◌, ◌≡◌, refl, sym, ap, ◌∙◌, inl, inr, true, some, List, [], ◌∷◌,
  if◌then◌else◌, ◌>>=◌, get_elem?, set, take, length, arith, Bool-cases, some-eq,
}
use mathlib.Core.Path.{subst}
use potatoes.Prelude.Int.{ℤ, pos, eq_ℤ, eq_ℤ→eq}
use potatoes.Klib.Strings.{strcmp}
use potatoes.Klib.Strings.Text.{IsText, cstr}
use potatoes.Klib.Strings.Compare.{difference, strcmp-zero_iff}
use potatoes.Fs.Files.{name_size}
use potatoes.Fs.Dir.{DirEntry, find_entry}
use potatoes.Fs.Dir.Slots.{Slots, same_text, same_text_self, same_text→eq, index_of}

-- The entry holds the text as its name, in the memory of a name, and the block.
abbrev pub Holds : List ℕ × ℕ → DirEntry → Type 0
Holds (t, b) e =
    (rest : List ℕ) × IsText t
    × (e.name ≡ cstr t rest)
    × (name_size ≤ length e.name)
    × (e.inode ≡ b)

abbrev pub Represents : Slots → List DirEntry → Type 0
Represents [] [] = Unit
Represents [] (e ∷ es) = ⊥
Represents (x ∷ sl) [] = ⊥
Represents (x ∷ sl) (e ∷ es) = Holds x e × Represents sl es

strcmp-same_text :
    (u t r q : List ℕ)
    → IsText u
    → IsText t
    → (d : ℤ) × (strcmp (cstr u r) (cstr t q) ≡ some d) × (eq_ℤ d (pos 0) ≡ same_text u t)
strcmp-same_text u t r q p k =
    let (ran, zero_iff) = strcmp-zero_iff u t r q p k in
    (
      difference u t,
      ran,
      elim (Bool-cases (same_text u t)) [
        | inl same ↦ rw same (rw (zero_iff.1 (same_text→eq u t same)) refl)
        | inr other ↦ elim (Bool-cases (eq_ℤ (difference u t) (pos 0))) [
          | inl zero_d ↦
              let e = zero_iff.0 (eq_ℤ→eq (difference u t) (pos 0) zero_d) in
              let f : same_text u t ≡ true = ap (same_text u) (sym e) ∙ same_text_self u in
              absurd (cc (f, other))
          | inr nonzero ↦ nonzero ∙ sym other
        ]
      ],
    )

pub find_entry-index_of :
    (sl : Slots) (es : List DirEntry) (t q : List ℕ)
    → Represents sl es
    → IsText t
    → find_entry es (cstr t q) ≡ some (index_of sl t)
unfolding find_entry index_of
find_entry-index_of [] [] t q v p = refl
find_entry-index_of [] (e ∷ es) t q v p = absurd v
find_entry-index_of (x ∷ sl) [] t q v p = absurd v
find_entry-index_of ((u, b) ∷ sl) (e ∷ es) t q ((rest, text, name, size, blk), v) p =
    let (d, ran, same) = strcmp-same_text u t rest q text p in
    let ih = find_entry-index_of sl es t q v p in
    ap
      (λ m. strcmp m (cstr t q) >>= (λ d'.
        if eq_ℤ d' (pos 0)
        then some (some 0)
        else (find_entry es (cstr t q) >>= (λ o. some (o >>= (λ i. some (suc i)))))))
      name
    ∙ rw (ran, same, ih)
        (elim (Bool-cases (same_text u t)) [ inl e ↦ rw e refl | inr e ↦ rw e refl ])

pub Represents-get :
    (sl : Slots) (es : List DirEntry) (i : ℕ) (t : List ℕ) (b : ℕ)
    → Represents sl es
    → get_elem? sl i ≡ some (t, b)
    → (e : DirEntry) × (get_elem? es i ≡ some e) × Holds (t, b) e
Represents-get [] [] i t b v h = cc h
Represents-get [] (e ∷ es) i t b v h = absurd v
Represents-get (x ∷ sl) [] i t b v h = absurd v
Represents-get (x ∷ sl) (e ∷ es) zero t b (held, v) h =
    (e, refl, subst (λ y. Holds y e) (some-eq h) held)
Represents-get (x ∷ sl) (e ∷ es) (suc i) t b (held, v) h = Represents-get sl es i t b v h

pub Represents-set :
    (sl : Slots) (es : List DirEntry) (i : ℕ) (x : List ℕ × ℕ) (e : DirEntry)
    → Represents sl es
    → Holds x e
    → Represents (set sl i x) (set es i e)
Represents-set [] [] i x e v h = tt
Represents-set [] (f ∷ es) i x e v h = absurd v
Represents-set (y ∷ sl) [] i x e v h = absurd v
Represents-set (y ∷ sl) (f ∷ es) zero x e (held, v) h = (h, v)
Represents-set (y ∷ sl) (f ∷ es) (suc i) x e (held, v) h = (held, Represents-set sl es i x e v h)

pub take-cstr :
    (n : ℕ) (t q : List ℕ) → length t < n → take n (cstr t q) ≡ cstr t (take (n - length t - 1) q)
take-cstr zero t q h = absurd (omega arith)
take-cstr (suc n) [] q h = ap (λ k. 0 ∷ take k q) (omega arith)
take-cstr (suc n) (c ∷ t) q h =
    ap (λ r. c ∷ r) (take-cstr n t q (omega arith) ∙ ap (λ k. cstr t (take k q)) (omega arith))
