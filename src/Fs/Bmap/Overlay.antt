-- ===== src/Fs/Bmap/Overlay.antt =====
-- A write of a part of a list, as `rd_block` does into the bitmap.
use potatoes.Prelude.{
  ℕ, ◌+◌, ◌-◌, ◌≤◌, ◌<◌, ◌≡◌, ◌∙◌, ap, List, ◌++◌, arith, length, get_or, get_or-append,
  get_or-drop, get_or-take, take, drop, length-append, length-drop, length-take,
}

-- A list with the `n` bytes from `b` on replaced, slot by slot.
module _ (xs ys : List ℕ) (b n : ℕ) (h : b + n ≤ length xs) (k : n ≤ length ys) where
  abbrev pub overlay : List ℕ
  overlay = take b xs ++ (take n ys ++ drop n (drop b xs))

  front : length (take b xs) ≡ b
  front = omega (arith, length-take {0} b xs)

  pub length-overlay : length overlay ≡ length xs
  length-overlay = omega (
    arith,
    length-append {0} (take b xs) (take n ys ++ drop n (drop b xs)),
    length-append {0} (take n ys) (drop n (drop b xs)),
    length-take {0} b xs,
    length-take {0} n ys,
    length-drop {0} n (drop b xs),
    length-drop {0} b xs,
  )

  pub overlay-before : (i : ℕ) → i < b → get_or overlay i 0 ≡ get_or xs i 0
  overlay-before i p =
      ground (arith, get_or-append (take b xs) (take n ys ++ drop n (drop b xs)) i 0, front)
      ∙ get_or-take b xs i 0 p

  past_front :
      (i : ℕ) → b ≤ i → get_or overlay i 0 ≡ get_or (take n ys ++ drop n (drop b xs)) (i - b) 0
  past_front i p = ground (
    arith,
    get_or-append (take b xs) (take n ys ++ drop n (drop b xs)) i 0,
    front,
    ap (λ t. get_or (take n ys ++ drop n (drop b xs)) (i - t) 0) front,
  )

  pub overlay-inside : (i : ℕ) → b ≤ i → i < b + n → get_or overlay i 0 ≡ get_or ys (i - b) 0
  overlay-inside i p q =
      past_front i p
      ∙ (ground (
        arith,
        get_or-append (take n ys) (drop n (drop b xs)) (i - b) 0,
        length-take n ys,
        get_or-take n ys (i - b) 0 (omega arith),
      ))

  pub overlay-behind : (i : ℕ) → b + n ≤ i → get_or overlay i 0 ≡ get_or xs i 0
  overlay-behind i p =
      past_front i (omega arith)
      ∙ (step
          ∙ (get_or-drop n (drop b xs) (i - b - n) 0
              ∙ (get_or-drop b xs (n + (i - b - n)) 0 ∙ ap (λ t. get_or xs t 0) (omega arith))))
    where
      middle : length (take n ys) ≡ n
      middle = omega (arith, length-take {0} n ys)

      step :
          get_or (take n ys ++ drop n (drop b xs)) (i - b) 0
          ≡ get_or (drop n (drop b xs)) (i - b - n) 0
      step = ground (
        arith,
        get_or-append (take n ys) (drop n (drop b xs)) (i - b) 0,
        middle,
        ap (λ t. get_or (drop n (drop b xs)) (i - b - t) 0) middle,
      )
