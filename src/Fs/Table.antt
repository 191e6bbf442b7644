-- ===== src/Fs/Table.antt =====
-- The loops `for (i = 0; i < N; i++) if (... t[i] ...) return &t[i];` that search the tables of the
-- file system. A pointer to an entry is its index, and NULL is `none`.
use mathlib.Core.Path.{subst}
use potatoes.Prelude.Int.{ℤ, pos, negsuc, eq_ℤ, eq_ℤ→eq, eq_ℤ-self, pos-eq}
use potatoes.Prelude.{
  ◌⊎◌, ◌==◌, ==→eq, set, get_elem?-set, get_elem?-lt, ℕ, zero, suc, ◌<◌, ◌≡◌, refl, sym, ap, ◌∙◌,
  Bool, true, false, Option, none, some, List, [], ◌∷◌, if◌then◌else◌, ◌>>=◌, get_elem?, arith,
  Bool-cases, inl, inr, some-eq,
}

module _ {ℓ} {A : Type ℓ} (p : A → Bool) where
  unfoldable pub first : List A → Option ℕ
  first [] = none
  first (x ∷ xs) = if p x then some 0 else (first xs >>= (λ i. some (suc i)))

  -- What a search returns: the first entry that passes, or NULL where none does.
  abbrev pub IsFirst : List A → Option ℕ → Type ℓ
  IsFirst xs none = (j : ℕ) (x : A) → get_elem? xs j ≡ some x → p x ≡ false
  IsFirst xs (some i) =
      ((x : A) × (get_elem? xs i ≡ some x) × (p x ≡ true))
      × ((j : ℕ) (x : A) → j < i → get_elem? xs j ≡ some x → p x ≡ false)

  IsFirst-later :
      (x : A) (xs : List A) (o : Option ℕ)
      → p x ≡ false
      → IsFirst xs o
      → IsFirst (x ∷ xs) (o >>= (λ i. some (suc i)))
  IsFirst-later x xs none no_hit h = every
    where
      every : (j : ℕ) (y : A) → get_elem? (x ∷ xs) j ≡ some y → p y ≡ false
      every zero y e = ap p (sym (some-eq e)) ∙ no_hit
      every (suc j) y e = h j y e
  IsFirst-later x xs (some i) no_hit (hit, before) = (hit, earlier)
    where
      earlier : (j : ℕ) (y : A) → j < suc i → get_elem? (x ∷ xs) j ≡ some y → p y ≡ false
      earlier zero y h e = ap p (sym (some-eq e)) ∙ no_hit
      earlier (suc j) y h e = before j y (omega arith) e

  pub first-IsFirst : (xs : List A) → IsFirst xs (first xs)
  unfolding first
  first-IsFirst [] = λ j x e. absurd (cc)
  first-IsFirst (x ∷ xs) = elim (Bool-cases (p x)) [
    | inl hit ↦ rw hit ((x, refl, hit), λ j y h e. absurd (omega arith))
    | inr no_hit ↦ rw no_hit (IsFirst-later x xs (first xs) no_hit (first-IsFirst xs))
  ]

-- The tables whose entries bear the number of their place, or -1 while unused.
module _ {ℓ} {A : Type ℓ} (num : A → ℤ) where
  abbrev pub IsTable : List A → Type ℓ
  IsTable t = (i : ℕ) (x : A) → get_elem? t i ≡ some x → (num x ≡ negsuc 0) ⊎ (num x ≡ pos i)

  pub set-IsTable :
      (t : List A) (i : ℕ) {x : A} (v : A)
      → get_elem? t i ≡ some x
      → (num v ≡ negsuc 0) ⊎ (num v ≡ pos i)
      → IsTable t
      → IsTable (set t i v)
  set-IsTable t i v e ok table j y f = elim (Bool-cases (i == j)) [
    | inl here ↦
        let same : v ≡ y =
          some-eq (ground (arith, get_elem?-set t i j v (get_elem?-lt t i e), f)) in
        subst (λ k. (num y ≡ negsuc 0) ⊎ (num y ≡ pos k)) (==→eq i j here)
          (subst (λ z. (num z ≡ negsuc 0) ⊎ (num z ≡ pos i)) same ok)
    | inr away ↦ table j y (ground (arith, get_elem?-set t i j v (get_elem?-lt t i e), f))
  ]

  place-num :
      (t : List A) {i : ℕ}
      → IsTable t
      → (j : ℕ) (y : A) → get_elem? t j ≡ some y
      → num y ≡ pos i
      → j ≡ i
  place-num t table j y f bears = elim (table j y f) [
    | inl unused ↦ cc (unused, bears)
    | inr placed ↦ pos-eq (sym placed ∙ bears)
  ]

  -- The entry that bears a number is found at that place.
  pub first-num :
      (t : List A) (i : ℕ) {x : A}
      → IsTable t
      → get_elem? t i ≡ some x
      → num x ≡ pos i
      → first (λ y. eq_ℤ (num y) (pos i)) t ≡ some i
  first-num t i {x} table e n = found (first p t) refl (first-IsFirst p t)
    where
      p : A → Bool
      p y = eq_ℤ (num y) (pos i)

      hit : p x ≡ true
      hit = ap (λ k. eq_ℤ k (pos i)) n ∙ eq_ℤ-self (pos i)

      found : (o : Option ℕ) → first p t ≡ o → IsFirst p t o → first p t ≡ some i
      found none r all = cc (hit, all i x e)
      found (some j) r ((y, f, h), before) =
          r ∙ ap some (place-num t table j y f (eq_ℤ→eq (num y) (pos i) h))

  -- A number that no entry bears is not found.
  pub first-unused :
      (t : List A) (i : ℕ) {x : A}
      → IsTable t
      → get_elem? t i ≡ some x
      → num x ≡ negsuc 0
      → first (λ y. eq_ℤ (num y) (pos i)) t ≡ none
  first-unused t i {x} table e n = found (first p t) refl (first-IsFirst p t)
    where
      p : A → Bool
      p y = eq_ℤ (num y) (pos i)

      found : (o : Option ℕ) → first p t ≡ o → IsFirst p t o → first p t ≡ none
      found none r all = r
      found (some j) r ((y, f, h), before) =
          let bears : num y ≡ pos i = eq_ℤ→eq (num y) (pos i) h in
          let here : j ≡ i = place-num t table j y f bears in
          let same : y ≡ x = some-eq (sym f ∙ (ap (get_elem? t) here ∙ e)) in
          cc (bears, ap num same, n)
