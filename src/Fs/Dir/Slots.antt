-- ===== src/Fs/Dir/Slots.antt =====
-- The abstract view of a block of directory entries: its slots, each with a name and the block of an
-- inode, where a free slot has the empty name; and the map from names to blocks that they stand for.
use potatoes.Prelude.{
  ℕ, suc, ◌≡◌, ◌≢◌, refl, sym, ap, ap₂, ◌∙◌, inl, inr, ◌⊎◌, Bool, true, false, ◌&&◌, Option, none,
  some, List, [], ◌∷◌, ◌==◌, if◌then◌else◌, ◌>>=◌, get_elem?, set, Bool-cases, ==→eq, eq→==,
  some-eq,
}

unfoldable pub same_text : List ℕ → List ℕ → Bool
same_text [] [] = true
same_text [] (b ∷ t) = false
same_text (a ∷ s) [] = false
same_text (a ∷ s) (b ∷ t) = (a == b) && same_text s t

pub same_text_self : (s : List ℕ) → same_text s s ≡ true
unfolding same_text
same_text_self [] = refl
same_text_self (a ∷ s) = rw (eq→== a a refl) (same_text_self s)

pub same_text→eq : (s t : List ℕ) → same_text s t ≡ true → s ≡ t
unfolding same_text
same_text→eq [] [] e = refl
same_text→eq [] (b ∷ t) e = cc
same_text→eq (a ∷ s) [] e = cc
same_text→eq (a ∷ s) (b ∷ t) e = elim (Bool-cases (a == b)) [
  | inl same ↦ ap₂ ◌∷◌ (==→eq a b same) (same_text→eq s t (rw same at e))
  | inr other ↦ absurd (let f : false ≡ true = rw other at e in cc f)
]

pub same_text-ne : (s t : List ℕ) → s ≢ t → same_text s t ≡ false
same_text-ne s t ne = elim (Bool-cases (same_text s t)) [
  | inl same ↦ absurd (ne (same_text→eq s t same))
  | inr other ↦ other
]

abbrev pub Slots : Type 0
Slots = List (List ℕ × ℕ)

-- The first slot with the name.
unfoldable pub index_of : Slots → List ℕ → Option ℕ
index_of [] t = none
index_of ((u, b) ∷ sl) t = if same_text u t then some 0 else (index_of sl t >>= (λ i. some (suc i)))

-- What the slots map a name to.
unfoldable pub lookup : Slots → List ℕ → Option ℕ
lookup [] t = none
lookup ((u, b) ∷ sl) t = if same_text u t then some b else lookup sl t

-- No name stands in two slots.
abbrev pub Distinct : Slots → Type 0
Distinct [] = Unit
Distinct ((u, b) ∷ sl) = (u ≢ [] → lookup sl u ≡ none) × Distinct sl

-- Where the search ends, and what the map gives there.
pub index_of-lookup :
    (sl : Slots) (t : List ℕ)
    → ((index_of sl t ≡ none) × (lookup sl t ≡ none))
      ⊎ ((i : ℕ) × (b : ℕ) × (index_of sl t ≡ some i)
          × (get_elem? sl i ≡ some (t, b))
          × (lookup sl t ≡ some b))
unfolding index_of lookup
index_of-lookup [] t = inl (refl, refl)
index_of-lookup ((u, b) ∷ sl) t = elim (Bool-cases (same_text u t)) [
  | inl same ↦ rw same (inr (0, b, refl, ap (λ w. some (w, b)) (same_text→eq u t same), refl))
  | inr other ↦ rw other (elim (index_of-lookup sl t) [
    | inl (e, m) ↦ inl (ap (λ o. o >>= (λ i. some (suc i))) e, m)
    | inr (i, c, e, at, m) ↦ inr (suc i, c, ap (λ o. o >>= (λ i. some (suc i))) e, at, m)
  ])
]

ne_of-false : (s t : List ℕ) → same_text s t ≡ false → s ≢ t
ne_of-false s t e w =
    let f : same_text s t ≡ true = ap (same_text s) (sym w) ∙ same_text_self s in cc (e, f)

same_text-differs :
    (w t u : List ℕ) → same_text w u ≡ true → same_text w t ≡ false → same_text t u ≡ false
same_text-differs w t u same other =
    same_text-ne t u (λ e. ne_of-false w t other (same_text→eq w u same ∙ sym e))

empty-other : (u : List ℕ) → u ≢ [] → same_text [] u ≡ false
empty-other u ne = same_text-ne [] u (λ e. ne (sym e))

index_of-cons :
    (w : List ℕ) (c : ℕ) (sl : Slots) (t : List ℕ) (i : ℕ)
    → index_of ((w, c) ∷ sl) t ≡ some i
    → ((same_text w t ≡ true) × (i ≡ 0))
      ⊎ ((j : ℕ) × (same_text w t ≡ false) × (index_of sl t ≡ some j) × (i ≡ suc j))
unfolding index_of
index_of-cons w c sl t i e = elim (Bool-cases (same_text w t)) [
  | inl same ↦ inl (same, sym (some-eq (rw same at e)))
  | inr other ↦ inr (later (index_of sl t) other (rw other at e))
]
  where
    later :
        (o : Option ℕ)
        → same_text w t ≡ false
        → (o >>= (λ j. some (suc j))) ≡ some i
        → (j : ℕ) × (same_text w t ≡ false) × (o ≡ some j) × (i ≡ suc j)
    later none other h = cc h
    later (some j) other h = (j, other, refl, sym (some-eq h))

pub index_of-none :
    (w : List ℕ) (c : ℕ) (sl : Slots) (t : List ℕ)
    → index_of ((w, c) ∷ sl) t ≡ none
    → (same_text w t ≡ false) × (index_of sl t ≡ none)
unfolding index_of
index_of-none w c sl t e = elim (Bool-cases (same_text w t)) [
  | inl there ↦ absurd (let f : some 0 ≡ none = rw there at e in cc f)
  | inr away ↦ (away, later (index_of sl t) (rw away at e))
]
  where
    later : (o : Option ℕ) → (o >>= (λ j. some (suc j))) ≡ none → o ≡ none
    later none h = refl
    later (some j) h = cc h

lookup-away :
    (w : List ℕ) (c : ℕ) (sl : Slots) (t : List ℕ)
    → lookup ((w, c) ∷ sl) t ≡ none
    → (same_text w t ≡ false) × (lookup sl t ≡ none)
unfolding lookup
lookup-away w c sl t e = elim (Bool-cases (same_text w t)) [
  | inl there ↦ absurd (let f : some c ≡ none = rw there at e in cc f)
  | inr away ↦ (away, rw away at e)
]

-- A name in a free slot.
pub lookup-set_free :
    (sl : Slots) (i b : ℕ) (t u : List ℕ)
    → index_of sl [] ≡ some i
    → lookup sl t ≡ none
    → u ≢ []
    → lookup (set sl i (t, b)) u ≡ (if same_text t u then some b else lookup sl u)
unfolding lookup
lookup-set_free [] i b t u e free ne = absurd (unfold index_of in cc e)
lookup-set_free ((w, c) ∷ sl) i b t u e free ne =
    let (away, free') = lookup-away w c sl t free in
    elim (index_of-cons w c sl [] i e) [
      | inl (nil, at) ↦ rw (at, same_text→eq w [] nil, empty-other u ne) refl
      | inr (j, other, found, at) ↦
          let ih = lookup-set_free sl j b t u found free' ne in
          elim (Bool-cases (same_text w u)) [
            | inl here ↦ rw (at, here, same_text-differs w t u here away) refl
            | inr there ↦ rw (at, there, ih) refl
          ]
    ]

-- The slot of a name is freed.
pub lookup-set_empty :
    (sl : Slots) (i : ℕ) (t u : List ℕ)
    → index_of sl t ≡ some i
    → Distinct sl
    → t ≢ []
    → u ≢ []
    → lookup (set sl i ([], 0)) u ≡ (if same_text t u then none else lookup sl u)
unfolding lookup
lookup-set_empty [] i t u e d nt ne = absurd (unfold index_of in cc e)
lookup-set_empty ((w, c) ∷ sl) i t u e d nt ne = elim (index_of-cons w c sl t i e) [
  | inl (here, at) ↦
      let same = same_text→eq w t here in
      elim (Bool-cases (same_text t u)) [
        | inl hit ↦
            rw (at, same, empty-other u ne, hit)
              (ap (lookup sl) (sym (same ∙ same_text→eq t u hit)) ∙ d.0 (λ n. nt (sym same ∙ n)))
        | inr miss ↦ rw (at, same, empty-other u ne, miss) refl
      ]
  | inr (j, other, found, at) ↦
      let ih = lookup-set_empty sl j t u found d.1 nt ne in
      elim (Bool-cases (same_text w u)) [
        | inl same ↦ rw (at, same, same_text-differs w t u same other) refl
        | inr there ↦ rw (at, there, ih) refl
      ]
]

-- Distinct names stay distinct where a new one takes a free slot.
pub Distinct-set_free :
    (sl : Slots) (i b : ℕ) (t : List ℕ)
    → index_of sl [] ≡ some i
    → lookup sl t ≡ none
    → Distinct sl
    → Distinct (set sl i (t, b))
Distinct-set_free [] i b t e free d = absurd (unfold index_of in cc e)
Distinct-set_free ((w, c) ∷ sl) i b t e free d =
    let (away, free') = lookup-away w c sl t free in
    elim (index_of-cons w c sl [] i e) [
      | inl (nil, at) ↦ rw at (λ _. free', d.1)
      | inr (j, other, found, at) ↦ rw at (
        λ named.
            lookup-set_free sl j b t w found free' named
            ∙ rw (same_text-ne t w (λ q. ne_of-false w t away (sym q))) (d.0 named),
        Distinct-set_free sl j b t found free' d.1,
      )
    ]

-- They stay distinct where the slot of a name is freed.
pub Distinct-set_empty :
    (sl : Slots) (i : ℕ) (t : List ℕ)
    → index_of sl t ≡ some i
    → Distinct sl
    → t ≢ []
    → Distinct (set sl i ([], 0))
Distinct-set_empty [] i t e d nt = absurd (unfold index_of in cc e)
Distinct-set_empty ((w, c) ∷ sl) i t e d nt = elim (index_of-cons w c sl t i e) [
  | inl (here, at) ↦ rw at (λ named. absurd (named refl), d.1)
  | inr (j, other, found, at) ↦ rw at (
    λ named.
        lookup-set_empty sl j t w found d.1 nt named
        ∙ rw (same_text-ne t w (λ q. ne_of-false w t other (sym q))) (d.0 named),
    Distinct-set_empty sl j t found d.1 nt,
  )
]
