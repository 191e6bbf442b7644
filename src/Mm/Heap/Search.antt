-- ===== src/Mm/Heap/Search.antt =====
-- The search for the largest hole.
use potatoes.Prelude.{
  ℕ, zero, suc, ◌+◌, ◌^◌, ◌≤◌, ◌<◌, ◌≡◌, ◌⊎◌, inl, inr, refl, ap, ◌∙◌, true, false, List, [], ◌∷◌,
  ◌++◌, Option, some, ◌==◌, arith, length, Bool-cases, ne→==, eq→==,
}
use native.Mathlib.Nat.{le_refl}
use potatoes.Mm.Heap.{Header, header_size, hole, is_better, worst_fit}
use potatoes.Mm.Heap.Chain.{Chain}

-- No hole below one of `bs` that is large enough is larger than `best`.
abbrev pub NoBetter : (ℕ → Header) → ℕ → ℕ → List ℕ → Type 0
NoBetter mem need best [] = Unit
NoBetter mem need best (b ∷ bs) =
    (need ≤ hole mem b → hole mem b ≤ best) × NoBetter mem need best bs

NoBetter-le :
    (mem : ℕ → Header) (need best best' : ℕ) (bs : List ℕ)
    → best ≤ best'
    → NoBetter mem need best bs
    → NoBetter mem need best' bs
NoBetter-le mem need best best' [] le all = tt
NoBetter-le mem need best best' (b ∷ bs) le (h, all) =
    (λ k. omega (arith, h k), NoBetter-le mem need best best' bs le all)

-- The search has kept what it had, or found the header above the largest hole.
abbrev pub Worst : (ℕ → Header) → ℕ → ℕ → Option ℕ → List ℕ → Option ℕ → Type 0
Worst mem need best tmp bs r =
    ((r ≡ tmp) × NoBetter mem need best bs)
    ⊎ ((xs : List ℕ) × (n : ℕ) × (ys : List ℕ) × (bs ≡ xs ++ (n ∷ ys))
        × (r ≡ some n)
        × (need ≤ hole mem n)
        × (best < hole mem n)
        × NoBetter mem need (hole mem n) bs)

is_better-true :
    (mem : ℕ → Header) (size b best : ℕ)
    → size + header_size < 2 ^ 32
    → is_better mem size b best ≡ true
    → (size + header_size ≤ hole mem b) × (best < hole mem b)
is_better-true mem size b best small h = (ground (arith, h), ground (arith, h))

is_better-false :
    (mem : ℕ → Header) (size b best : ℕ)
    → size + header_size < 2 ^ 32
    → is_better mem size b best ≡ false
    → size + header_size ≤ hole mem b
    → hole mem b ≤ best
is_better-false mem size b best small h k = ground (arith, h)

Worst-better :
    (mem : ℕ → Header) (need best : ℕ) (tmp : Option ℕ) (b : ℕ) (bs : List ℕ) (r : Option ℕ)
    → (need ≤ hole mem b) × (best < hole mem b)
    → Worst mem need (hole mem b) (some b) bs r
    → Worst mem need best tmp (b ∷ bs) r
Worst-better mem need best tmp b bs r (fits, larger) (inl (kept, all)) =
    inr ([], b, bs, refl, kept, fits, larger, ((λ k. le_refl (hole mem b)), all))
Worst-better mem need best tmp b bs r (fits, larger) (inr (xs, n, ys, e, found, k, l, all)) = inr (
  b ∷ xs,
  n,
  ys,
  ap (λ t. b ∷ t) e,
  found,
  k,
  omega (arith, l, larger),
  ((λ h. omega (arith, l)), all),
)

Worst-later :
    (mem : ℕ → Header) (need best : ℕ) (tmp : Option ℕ) (b : ℕ) (bs : List ℕ) (r : Option ℕ)
    → (need ≤ hole mem b → hole mem b ≤ best)
    → Worst mem need best tmp bs r
    → Worst mem need best tmp (b ∷ bs) r
Worst-later mem need best tmp b bs r worse (inl (kept, all)) = inl (kept, (worse, all))
Worst-later mem need best tmp b bs r worse (inr (xs, n, ys, e, found, k, l, all)) =
    inr (b ∷ xs, n, ys, ap (λ t. b ∷ t) e, found, k, l, ((λ h. omega (arith, worse h, l)), all))

module _ (mem : ℕ → Header) (size : ℕ) (small : size + header_size < 2 ^ 32) (z stop : ℕ)
    (closed : (mem z).next ≡ stop) where
  step_better :
      (fuel b best : ℕ) (tmp : Option ℕ)
      → (b == stop) ≡ false
      → is_better mem size b best ≡ true
      → worst_fit (suc fuel) mem stop size b best tmp
        ≡ worst_fit fuel mem stop size (mem b).next (hole mem b) (some b)
  unfolding worst_fit
  step_better fuel b best tmp on better = rw (on, better) refl

  step_worse :
      (fuel b best : ℕ) (tmp : Option ℕ)
      → (b == stop) ≡ false
      → is_better mem size b best ≡ false
      → worst_fit (suc fuel) mem stop size b best tmp
        ≡ worst_fit fuel mem stop size (mem b).next best tmp
  unfolding worst_fit
  step_worse fuel b best tmp on worse = rw (on, worse) refl

  -- The search along a chain ends, and returns the header above the largest hole that is larger than
  -- `best` and large enough, or else what it had.
  pub worst_fit-Worst :
      (bs : List ℕ) (fuel p best : ℕ) (tmp : Option ℕ)
      → Chain mem p bs z
      → stop ≤ p
      → length bs < fuel
      → (r : Option ℕ) × (worst_fit fuel mem stop size (mem p).next best tmp ≡ some r)
        × Worst mem (size + header_size) best tmp bs r
  unfolding worst_fit
  worst_fit-Worst bs zero p best tmp c low enough = absurd (omega arith)
  worst_fit-Worst [] (suc fuel) p best tmp c low enough =
      (tmp, rw (ap (λ a. (mem a).next) c ∙ closed, eq→== stop stop refl) refl, inl (refl, tt))
  worst_fit-Worst (b ∷ bs) (suc fuel) p best tmp ((to_next, to_prev, room), c) low enough =
      let on : (b == stop) ≡ false = ne→== b stop (omega arith) in
      elim (Bool-cases (is_better mem size b best)) [
        | inl better ↦
            let (r, ran, found) =
              worst_fit-Worst bs fuel b (hole mem b) (some b) c (omega arith) (omega arith) in
            (
              r,
              (ap (λ q. worst_fit (suc fuel) mem stop size q best tmp) to_next
                    ∙ step_better fuel b best tmp on better)
                  ∙ ran,
              Worst-better mem (size + header_size) best tmp b bs r
                  (is_better-true mem size b best small better) found,
            )
        | inr worse ↦
            let (r, ran, found) =
              worst_fit-Worst bs fuel b best tmp c (omega arith) (omega arith) in
            (
              r,
              (ap (λ q. worst_fit (suc fuel) mem stop size q best tmp) to_next
                    ∙ step_worse fuel b best tmp on worse)
                  ∙ ran,
              Worst-later mem (size + header_size) best tmp b bs r
                  (is_better-false mem size b best small worse) found,
            )
      ]
