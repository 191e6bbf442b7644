-- ===== src/Fs/Files/Names.antt =====
-- The search of the global file table for a name.
use potatoes.Prelude.{
  ℕ, zero, suc, ◌<◌, ◌≡◌, ◌⊎◌, inl, inr, refl, sym, ap, ◌∙◌, true, false, List, [], ◌∷◌, Option,
  some, none, ◌>>=◌, arith, get_elem?, some-eq, Bool-cases,
}
use potatoes.Prelude.Int.{ℤ, pos, eq_ℤ, eq_ℤ→eq, eq_ℤ-self}
use potatoes.Klib.Strings.{strcmp}
use potatoes.Klib.Strings.Text.{IsText, cstr}
use potatoes.Klib.Strings.Compare.{difference, strcmp-zero_iff}
use potatoes.Fs.Files.{File, minus_one, same_name, name2desc}

-- A pointer to a text, or NULL.
abbrev pub IsName : Option (List ℕ) → Type 0
IsName none = Unit
IsName (some m) = (t : List ℕ) × (rest : List ℕ) × IsText t × (m ≡ cstr t rest)

-- The name is the text `s`, whatever follows in memory.
abbrev pub Named : List ℕ → Option (List ℕ) → Type 0
Named s m = (rest : List ℕ) × (m ≡ some (cstr s rest))

abbrev pub HasNames : List File → Type 0
HasNames gft = (j : ℕ) (f : File) → get_elem? gft j ≡ some f → IsName f.name

-- `d` is the descriptor of the first entry that bears the name, or -1 where none does.
abbrev pub FirstNamed : List File → List ℕ → ℤ → Type 0
FirstNamed gft s d =
    ((i : ℕ) × (f : File) × (get_elem? gft i ≡ some f)
      × Named s f.name
      × (d ≡ f.desc)
      × ((j : ℕ) (y : File) → j < i → get_elem? gft j ≡ some y → ¬ (Named s y.name)))
    ⊎ (((j : ℕ) (y : File) → get_elem? gft j ≡ some y → ¬ (Named s y.name)) × (d ≡ minus_one))

same_name-Named :
    (s r : List ℕ) (m : Option (List ℕ))
    → IsText s
    → IsName m
    → ((same_name (cstr s r) m ≡ some true) × Named s m)
      ⊎ ((same_name (cstr s r) m ≡ some false) × ¬ (Named s m))
same_name-Named s r none p n = inr (refl, λ (rest, e). cc (e))
same_name-Named s r (some m) p (t, rest, q, e) =
    let (ran, zero_iff) = strcmp-zero_iff s t r rest p q in
    let compared : same_name (cstr s r) (some m) ≡ some (eq_ℤ (difference s t) (pos 0)) =
      ap (λ z. same_name (cstr s r) (some z)) e
      ∙ ap (λ o. o >>= (λ d. some (eq_ℤ d (pos 0)))) ran in
    elim (Bool-cases (eq_ℤ (difference s t) (pos 0))) [
      | inl same ↦ inl (
        compared ∙ ap some same,
        (
          rest,
          ap some (
              e ∙ ap (λ z. cstr z rest) (sym (zero_iff.0 (eq_ℤ→eq (difference s t) (pos 0) same)))),
        ),
      )
      | inr other ↦ inr (
        compared ∙ ap some other,
        λ (rest2, e2).
            let (again, self_iff) = strcmp-zero_iff s s r rest2 p p in
            let zero_self : difference s s ≡ pos 0 = self_iff.1 refl in
            let equal : difference s t ≡ difference s s =
              some-eq (sym ran ∙ (ap (strcmp (cstr s r)) (sym e ∙ some-eq e2) ∙ again)) in
            cc (other, ap (λ d. eq_ℤ d (pos 0)) (equal ∙ zero_self), eq_ℤ-self (pos 0)),
      )
    ]

FirstNamed-later :
    (f : File) (gft : List File) (s : List ℕ) (d : ℤ)
    → ¬ (Named s f.name)
    → FirstNamed gft s d
    → FirstNamed (f ∷ gft) s d
FirstNamed-later f gft s d miss (inl (i, g, e, named, same, before)) =
    inl (suc i, g, e, named, same, earlier)
  where
    earlier : (j : ℕ) (y : File) → j < suc i → get_elem? (f ∷ gft) j ≡ some y → ¬ (Named s y.name)
    earlier zero y h k n = miss (n.0, ap (λ (z : File). z.name) (some-eq k) ∙ n.1)
    earlier (suc j) y h k n = before j y (omega arith) k n
FirstNamed-later f gft s d miss (inr (all, same)) = inr (every, same)
  where
    every : (j : ℕ) (y : File) → get_elem? (f ∷ gft) j ≡ some y → ¬ (Named s y.name)
    every zero y k n = miss (n.0, ap (λ (z : File). z.name) (some-eq k) ∙ n.1)
    every (suc j) y k n = all j y k n

-- In a table whose names are texts or NULL, `name2desc` of a text does not fault, and returns the
-- descriptor of the first entry that bears that name, or NOT_FOUND where none does.
pub name2desc-FirstNamed :
    (gft : List File) (s r : List ℕ)
    → IsText s
    → HasNames gft
    → (d : ℤ) × (name2desc gft (cstr s r) ≡ some d) × FirstNamed gft s d
unfolding name2desc
name2desc-FirstNamed [] s r p names = (minus_one, refl, inr (λ j y e. absurd (cc), refl))
name2desc-FirstNamed (f ∷ gft) s r p names = elim (same_name-Named s r f.name p (names 0 f refl)) [
  | inl (ran, named) ↦
      (f.desc, rw ran refl, inl (0, f, refl, named, refl, λ j y h. absurd (omega arith)))
  | inr (ran, miss) ↦
      let (d, rest, found) = name2desc-FirstNamed gft s r p (λ j. names (suc j)) in
      (d, rw ran rest, FirstNamed-later f gft s d miss found)
]
