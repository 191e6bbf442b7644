-- ===== src/Klib/Numbers/Digits.antt =====
-- `itoa` and `atoi` to the base 10.
use potatoes.Prelude.{
  ℕ, zero, suc, ◌+◌, ◌-◌, ◌*◌, ◌/◌, ◌%◌, ◌^◌, ◌<◌, ◌≤◌, ◌≡◌, refl, sym, ap, ◌∙◌, true, false,
  Option, some, List, [], ◌∷◌, ◌++◌, ◌==◌, ◌>>=◌, ltb, leb, arith, length, Bool-cases, inl, inr,
  ne→==, eq→==, ==→eq,
}
use native.Mathlib.Nat.{pow-succ'}
use mathlib.Core.Path.{subst}
use mathlib.Core.List.{reverse, reverse-append}
use potatoes.Klib.Strings.Text.{IsText, cstr}
use potatoes.Klib.Numbers.{
  isspace, terminate, write_digits, strreverse, put_number, put_negative, itoa, skip_spaces,
  read_sign, guess_base, digit_value, next_ret, digit, is_digit, read_digits, strtol, atoi,
}
use potatoes.Klib.Numbers.Reverse.{strreverse-reverse}

abbrev IsDecimal : List ℕ → Type 0
IsDecimal [] = Unit
IsDecimal (c ∷ s) = (48 ≤ c) × (c ≤ 57) × IsDecimal s

IsDecimal-append : (s t : List ℕ) → IsDecimal s → IsDecimal t → IsDecimal (s ++ t)
IsDecimal-append [] t p q = q
IsDecimal-append (c ∷ s) t (l, m, p) q = (l, m, IsDecimal-append s t p q)

IsDecimal-reverse : (s : List ℕ) → IsDecimal s → IsDecimal (reverse s)
IsDecimal-reverse [] p = tt
IsDecimal-reverse (c ∷ s) (l, m, p) =
    subst IsDecimal (sym (reverse-append (c ∷ []) s))
      (IsDecimal-append (reverse s) (c ∷ []) (IsDecimal-reverse s p) (l, m, tt))

IsDecimal-IsText : (s : List ℕ) → IsDecimal s → IsText s
IsDecimal-IsText [] p = tt
IsDecimal-IsText (c ∷ s) (l, m, p) =
    ((λ e. omega (arith, l, e)), omega (arith, m), IsDecimal-IsText s p)

-- The number with the digits, the last one first, and with those behind `a`, the first one first.
abbrev number : List ℕ → ℕ
number [] = 0
number (c ∷ s) = (c - 48) + 10 * number s

abbrev number_from : ℕ → List ℕ → ℕ
number_from a [] = a
number_from a (c ∷ s) = number_from (a * 10 + (c - 48)) s

number_from-append :
    (a : ℕ) (s : List ℕ) (c : ℕ) → number_from a (s ++ (c ∷ [])) ≡ number_from a s * 10 + (c - 48)
number_from-append a [] c = refl
number_from-append a (d ∷ s) c = number_from-append (a * 10 + (d - 48)) s c

number_from-reverse : (s : List ℕ) → number_from 0 (reverse s) ≡ number s
number_from-reverse [] = refl
number_from-reverse (c ∷ s) =
    ap (number_from 0) (reverse-append (c ∷ []) s)
    ∙ (number_from-append 0 (reverse s) c ∙ omega (arith, number_from-reverse s))

abbrev negated : ℕ → ℕ
negated a = (2 ^ 32 - a % 2 ^ 32) % 2 ^ 32

digit_value-decimal : (c : ℕ) → 48 ≤ c → c ≤ 57 → digit_value c ≡ some (c - 48)
unfolding digit_value
digit_value-decimal c l m = ground (arith, l, m)

next_ret-negated :
    (a c : ℕ)
    → 48 ≤ c
    → c ≤ 57
    → next_ret 10 (negated a) (digit_value c) ≡ negated (a * 10 + (c - 48))
next_ret-negated a c l m =
    ap (next_ret 10 (negated a)) (digit_value-decimal c l m) ∙ omega (arith, l, m)

read_digits-negated :
    (s rest : List ℕ) (a : ℕ)
    → IsDecimal s
    → read_digits 10 (negated a) (cstr s rest) ≡ some (negated (number_from a s), 0 ∷ rest)
unfolding read_digits
read_digits-negated [] rest a p = refl
read_digits-negated (c ∷ s) rest a (l, m, p) =
    rw (ne→== c 0 (λ e. omega (arith, l, e)), ap (is_digit 10) (digit_value-decimal c l m) ∙ small)
      (ap (λ r. read_digits 10 r (cstr s rest)) (next_ret-negated a c l m)
        ∙ read_digits-negated s rest (a * 10 + (c - 48)) p)
  where
    small : ltb (c - 48) 10 ≡ true
    small = ground (arith, m)

-- `strtol` of the memory behind the white space.
strtol-decimal :
    (s rest : List ℕ)
    → IsDecimal s
    → strtol (cstr s rest) 10 ≡ some ((2 ^ 32 - negated (number_from 0 s)) % 2 ^ 32, 0 ∷ rest)
unfolding strtol skip_spaces isspace read_sign guess_base read_digits
strtol-decimal [] rest p = refl
strtol-decimal (c ∷ s) rest (l, m, p) =
    rw (no_space, ne→== c 45 (λ e. omega (arith, l, e)), ne→== c 43 (λ e. omega (arith, l, e)))
      (ap (λ o. o >>= (λ (ret, end). some ((2 ^ 32 - ret) % 2 ^ 32, end)))
        (read_digits-negated (c ∷ s) rest 0 (l, m, p)))
  where
    no_space : isspace c ≡ false
    no_space = ground (arith, l)

strtol-negative :
    (s rest : List ℕ)
    → IsDecimal s
    → strtol (45 ∷ cstr s rest) 10 ≡ some (negated (number_from 0 s), 0 ∷ rest)
unfolding strtol skip_spaces isspace read_sign guess_base
strtol-negative [] rest p = refl
strtol-negative (c ∷ s) rest p =
    ap (λ o. o >>= (λ (ret, end). some (ret, end))) (read_digits-negated (c ∷ s) rest 0 p)

-- What `itoa` leaves in memory for a number: a text of its digits.
abbrev Written : ℕ → Option (List ℕ) → Type 0
Written num r =
    (s : List ℕ) × (rest : List ℕ) × (r ≡ some (cstr s rest)) × IsDecimal s × (number s ≡ num)

digit-le : (num : ℕ) → 48 ≤ digit (num % 10)
digit-le num = ground arith

digit-ge : (num : ℕ) → digit (num % 10) ≤ 57
digit-ge num = ground arith

digit_sum : (num n : ℕ) → num / 10 ≡ n → (digit (num % 10) - 48) + 10 * n ≡ num
digit_sum num n e = ground (arith, e)

tenth : (j num : ℕ) → num < 10 ^ suc (suc j) → num / 10 < 10 ^ suc j
tenth j num h = omega (arith, h, pow-succ' 10 (suc j))

Written-digit :
    (num : ℕ) (r : Option (List ℕ))
    → Written (num / 10) r
    → Written num (r >>= (λ str. some (digit (num % 10) ∷ str)))
Written-digit num r (s, rest, e, p, n) = (
  digit (num % 10) ∷ s,
  rest,
  ap (λ o. o >>= (λ str. some (digit (num % 10) ∷ str))) e,
  (digit-le num, digit-ge num, p),
  digit_sum num (number s) (sym n),
)

write_digits-Written :
    (k num : ℕ) (str : List ℕ)
    → num < 10 ^ suc k
    → suc k < length str
    → Written num (write_digits 10 num str)
unfolding write_digits terminate
write_digits-Written k num [] l m = absurd (omega (arith, m))
write_digits-Written k num (c ∷ []) l m = absurd (omega (arith, m))
write_digits-Written zero num (c ∷ d ∷ str) l m =
    rw (eq→== (num / 10) 0 (omega (arith, l)))
      (Written-digit num (some (0 ∷ str)) ([], str, refl, tt, omega (arith, l)))
write_digits-Written (suc k) num (c ∷ d ∷ str) l m = elim (Bool-cases (num / 10 == 0)) [
  | inl last ↦
      rw last
        (Written-digit num (some (0 ∷ str)) ([], str, refl, tt, sym (==→eq (num / 10) 0 last)))
  | inr other ↦ rw other (
      Written-digit num (write_digits 10 (num / 10) (d ∷ str))
        (write_digits-Written k (num / 10) (d ∷ str) (tenth k num l) (omega (arith, m))))
]

put_number-text :
    (num : ℕ) (str : List ℕ)
    → num < 2 ^ 32
    → 11 ≤ length str
    → (s : List ℕ) × (rest : List ℕ) × (put_number 10 num str ≡ some (cstr s rest))
      × IsDecimal s
      × (number_from 0 s ≡ num)
unfolding put_number
put_number-text num str l m =
    let (s, rest, e, p, n) = write_digits-Written 9 num str (omega (arith, l)) (omega (arith, m)) in
    (
      reverse s,
      rest,
      ap (λ o. o >>= strreverse) e ∙ strreverse-reverse s rest (IsDecimal-IsText s p),
      IsDecimal-reverse s p,
      number_from-reverse s ∙ n,
    )

atoi-decimal :
    (s rest : List ℕ) (v : ℕ)
    → IsDecimal s
    → number_from 0 s ≡ v
    → v < 2 ^ 32
    → atoi (cstr s rest) ≡ some v
unfolding atoi
atoi-decimal s rest v p e l =
    ap (λ o. o >>= (λ (ret, end). some ret)) (strtol-decimal s rest p)
    ∙ ap some (omega (arith, e, l))

atoi-negative :
    (s rest : List ℕ) (v : ℕ)
    → IsDecimal s
    → number_from 0 s ≡ v
    → atoi (45 ∷ cstr s rest) ≡ some (negated v)
unfolding atoi
atoi-negative s rest v p e =
    ap (λ o. o >>= (λ (ret, end). some ret)) (strtol-negative s rest p)
    ∙ ap (λ w. some (negated w)) e

atoi-put_negative :
    (n : ℕ) (str : List ℕ)
    → n < 2 ^ 32
    → 12 ≤ length str
    → (r : List ℕ) × (put_negative ((2 ^ 32 - n) % 2 ^ 32) str ≡ some r) × (atoi r ≡ some n)
unfolding put_negative
atoi-put_negative n [] l m = absurd (omega (arith, m))
atoi-put_negative n (c ∷ str) l m =
    let v : ℕ = (2 ^ 32 - n) % 2 ^ 32 in
    let (s, rest, e, p, q) = put_number-text v str (omega arith) (omega (arith, m)) in
    (
      45 ∷ cstr s rest,
      ap (λ o. o >>= (λ r. some (45 ∷ r))) e,
      atoi-negative s rest v p q ∙ ap some (omega (arith, l)),
    )

-- With room for twelve bytes `itoa` to the base 10 does not fault for any `int`, and `atoi` of the
-- text that it writes is that `int` again, the least one included.
pub atoi-itoa :
    (n : ℕ) (str : List ℕ)
    → n < 2 ^ 32
    → 12 ≤ length str
    → (r : List ℕ) × (itoa n str 10 ≡ some r) × (atoi r ≡ some n)
unfolding itoa
atoi-itoa n str l m = elim (Bool-cases (leb (2 ^ 31) n)) [
  | inl negative ↦ rw negative (atoi-put_negative n str l m)
  | inr other ↦
      let (s, rest, e, p, q) = put_number-text n str l (omega (arith, m)) in
      rw other (cstr s rest, e, atoi-decimal s rest n p q l)
]
