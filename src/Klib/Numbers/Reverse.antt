-- ===== src/Klib/Numbers/Reverse.antt =====
-- `strreverse`.
use potatoes.Prelude.{
  ℕ, zero, suc, ◌+◌, ◌-◌, ◌<◌, ◌≤◌, ◌≡◌, refl, sym, ap, ◌∙◌, true, false, some, List, [], ◌∷◌, ◌++◌,
  append_assoc, ◌>>=◌, ltb, get_elem?, set, arith, length, length-append,
}
use mathlib.Core.List.{reverse, reverse-append}
use potatoes.Klib.Strings.Text.{IsText, cstr}
use potatoes.Klib.Strings.Length.{strlen-length}
use potatoes.Klib.Numbers.{swap, reverse_loop, strreverse}

get_elem?-behind :
    (pre ys : List ℕ) (x i : ℕ) → i ≡ length pre → get_elem? (pre ++ (x ∷ ys)) i ≡ some x
get_elem?-behind [] ys x zero e = refl
get_elem?-behind [] ys x (suc i) e = absurd (omega (arith, e))
get_elem?-behind (p ∷ pre) ys x zero e = absurd (omega (arith, e))
get_elem?-behind (p ∷ pre) ys x (suc i) e = get_elem?-behind pre ys x i (omega (arith, e))

set-behind :
    (pre ys : List ℕ) (x y i : ℕ) → i ≡ length pre → set (pre ++ (x ∷ ys)) i y ≡ pre ++ (y ∷ ys)
set-behind [] ys x y zero e = refl
set-behind [] ys x y (suc i) e = absurd (omega (arith, e))
set-behind (p ∷ pre) ys x y zero e = absurd (omega (arith, e))
set-behind (p ∷ pre) ys x y (suc i) e = ap (λ t. p ∷ t) (set-behind pre ys x y i (omega (arith, e)))

-- The last byte of a list that is not empty.
split_last : (x : ℕ) (xs : List ℕ) → (init : List ℕ) × (y : ℕ) × (x ∷ xs ≡ init ++ (y ∷ []))
split_last x [] = ([], x, refl)
split_last x (z ∷ zs) = let (init, y, e) = split_last z zs in (x ∷ init, y, ap (λ t. x ∷ t) e)

swap-ends :
    (pre mid post : List ℕ) (x y i j : ℕ)
    → i ≡ length pre
    → j ≡ suc (length pre + length mid)
    → swap i j (pre ++ (x ∷ mid ++ (y ∷ post))) ≡ some (pre ++ (y ∷ mid ++ (x ∷ post)))
unfolding swap
swap-ends pre mid post x y i j e f =
    rw
      (
        get_elem?-behind pre (mid ++ (y ∷ post)) x i e,
        ap (λ t. get_elem? t j) (sym (append_assoc pre (x ∷ mid) (y ∷ post)))
            ∙ get_elem?-behind (pre ++ (x ∷ mid)) post y j (inner x),
      )
      (ap some (
        ap (λ t. set t j x) (set-behind pre (mid ++ (y ∷ post)) x y i e)
        ∙ (ap (λ t. set t j x) (sym (append_assoc pre (y ∷ mid) (y ∷ post)))
            ∙ (set-behind (pre ++ (y ∷ mid)) post y x j (inner y)
                ∙ append_assoc pre (y ∷ mid) (x ∷ post)))))
  where
    inner : (z : ℕ) → j ≡ length (pre ++ (z ∷ mid))
    inner z = omega (arith, f, length-append {0} pre (z ∷ mid))

-- A list with its first and last byte, turned around.
reverse-ends :
    (init post : List ℕ) (x y : ℕ)
    → reverse (x ∷ (init ++ (y ∷ []))) ++ post ≡ y ∷ reverse init ++ (x ∷ post)
reverse-ends init post x y =
    ap (λ t. t ++ post)
      (reverse-append (x ∷ []) (init ++ (y ∷ []))
        ∙ ap (λ t. t ++ (x ∷ [])) (reverse-append init (y ∷ [])))
    ∙ append_assoc (y ∷ reverse init) (x ∷ []) post

abbrev Reverses : ℕ → Type 0
Reverses fuel =
    (start end : ℕ) (pre mid post : List ℕ)
    → start ≡ length pre
    → end ≡ length pre + length mid
    → length mid < fuel
    → reverse_loop fuel start end (pre ++ (mid ++ post)) ≡ some (pre ++ (reverse mid ++ post))

-- A round of the loop, where the bytes `x` and `y` change places.
reverse_loop-ends :
    (fuel start end : ℕ) (pre init post : List ℕ) (x y : ℕ)
    → Reverses fuel
    → start ≡ length pre
    → end ≡ length pre + suc (suc (length init))
    → suc (length init) < fuel
    → reverse_loop (suc fuel) start end (pre ++ (x ∷ init ++ (y ∷ post)))
      ≡ some (pre ++ (y ∷ reverse init ++ (x ∷ post)))
unfolding reverse_loop
reverse_loop-ends fuel start end pre init post x y go e f l =
    rw (more, swap-ends pre init post x y start (end - 1) e (omega (arith, f)))
      (ap (reverse_loop fuel (suc start) (end - 1))
          (sym (append_assoc pre (y ∷ []) (init ++ (x ∷ post))))
        ∙ (go (suc start) (end - 1) (pre ++ (y ∷ [])) init (x ∷ post)
              (omega (arith, e, length-append {0} pre (y ∷ [])))
              (omega (arith, f, length-append {0} pre (y ∷ []))) (omega (arith, l))
            ∙ ap some (append_assoc pre (y ∷ []) (reverse init ++ (x ∷ post)))))
  where
    more : ltb (suc start) end ≡ true
    more = ground (arith, e, f)

short : (start end n m : ℕ) → start ≡ n → end ≡ n + m → m ≤ 1 → ltb (suc start) end ≡ false
short start end n m e f l = ground (arith, e, f, l)

reverse_loop-reverse : (fuel : ℕ) → Reverses fuel
unfolding reverse_loop
reverse_loop-reverse zero start end pre mid post e f l = absurd (omega (arith, l))
reverse_loop-reverse (suc fuel) start end pre [] post e f l =
    rw (short start end (length pre) 0 e f (omega arith)) refl
reverse_loop-reverse (suc fuel) start end pre (x ∷ []) post e f l =
    rw (short start end (length pre) 1 e f (omega arith)) refl
reverse_loop-reverse (suc fuel) start end pre (x ∷ z ∷ zs) post e f l =
    let (init, y, s) = split_last z zs in
    let n : suc (length zs) ≡ suc (length init) =
      ap length s ∙ omega (arith, length-append {0} init (y ∷ [])) in
    ap (λ t. reverse_loop (suc fuel) start end (pre ++ (x ∷ t)))
      (ap (λ t. t ++ post) s ∙ append_assoc init (y ∷ []) post)
    ∙ (reverse_loop-ends fuel start end pre init post x y (reverse_loop-reverse fuel) e
          (omega (arith, f, n)) (omega (arith, l, n))
        ∙ ap (λ t. some (pre ++ t))
            (sym (ap (λ t. reverse (x ∷ t) ++ post) s ∙ reverse-ends init post x y)))

-- `strreverse` turns the text around and leaves what follows it in memory.
pub strreverse-reverse :
    (s rest : List ℕ) → IsText s → strreverse (cstr s rest) ≡ some (cstr (reverse s) rest)
unfolding strreverse
strreverse-reverse s rest t =
    ap (λ o. o >>= (λ n. reverse_loop (suc n) 0 n (cstr s rest))) (strlen-length s rest t)
    ∙ reverse_loop-reverse (suc (length s)) 0 (length s) [] s (0 ∷ rest) refl (omega arith)
        (omega arith)
