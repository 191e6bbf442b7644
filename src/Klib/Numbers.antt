-- ===== src/Klib/Numbers.antt =====
-- The functions of src/kernel/lib/string.c that turn numbers into texts and texts into numbers. An
-- `int` is its 32 bits as a natural number, so that -1 is 2 ^ 32 - 1. A string is the memory from
-- its pointer on, and a fault is `none`.
pub mod Reverse
pub mod Digits
mod Tests
use potatoes.Prelude.{
  ℕ, zero, suc, ◌+◌, ◌-◌, ◌*◌, ◌/◌, ◌%◌, ◌^◌, Bool, true, false, not, ◌&&◌, ◌||◌, Option, none,
  some, List, [], ◌∷◌, ◌==◌, ltb, leb, if◌then◌else◌, ◌>>=◌, get_elem?, set,
}
use potatoes.Klib.Strings.{strlen}

-- The bytes at two indices change places.
pub swap : ℕ → ℕ → List ℕ → Option (List ℕ)
swap start end str = do
  c ← get_elem? str start
  d ← get_elem? str end
  some (set (set str start d) end c)

-- The loop of `strreverse`, with `end` one further, which is then no pointer before the text.
pub reverse_loop : ℕ → ℕ → ℕ → List ℕ → Option (List ℕ)
unfolding swap
reverse_loop zero start end str = none
reverse_loop (suc fuel) start end str =
    let rest = swap start (end - 1) str >>= reverse_loop fuel (suc start) (end - 1) in
    if ltb (suc start) end then rest else some str

pub strreverse : List ℕ → Option (List ℕ)
unfolding reverse_loop
strreverse str = strlen str >>= (λ n. reverse_loop (suc n) 0 n str)

pub isspace : ℕ → Bool
isspace c = c == 32 || (c == 9 || (c == 13 || (c == 10 || (c == 11 || c == 12))))

-- `*str = '\0'`.
pub terminate : List ℕ → Option (List ℕ)
terminate [] = none
terminate (c ∷ str) = some (0 ∷ str)

abbrev pub digit : ℕ → ℕ
digit rem = if ltb rem 10 then 48 + rem else 55 + rem

-- The loop of `itoa` and the terminator.
pub write_digits : ℕ → ℕ → List ℕ → Option (List ℕ)
unfolding terminate
write_digits base num [] = none
write_digits base num (c ∷ str) =
    let rest = write_digits base (num / base) str in
    (if num / base == 0 then terminate str else rest) >>= (λ r. some (digit (num % base) ∷ r))

-- The digits are written and reversed.
pub put_number : ℕ → ℕ → List ℕ → Option (List ℕ)
unfolding write_digits strreverse
put_number base num str = write_digits base num str >>= strreverse

-- The sign, and the number behind it.
pub put_negative : ℕ → List ℕ → Option (List ℕ)
unfolding put_number
put_negative num [] = none
put_negative num (c ∷ str) = put_number 10 num str >>= (λ r. some (45 ∷ r))

-- The returned pointer is the one given. A division by the base 0 is a fault.
pub itoa : ℕ → List ℕ → ℕ → Option (List ℕ)
unfolding put_negative put_number
itoa n str base =
    if base == 10 && leb (2 ^ 31) n
    then put_negative ((2 ^ 32 - n) % 2 ^ 32) str
    else if base == 0
    then none
    else put_number base n str

-- The pointer behind the white space.
pub skip_spaces : List ℕ → List ℕ
unfolding isspace
skip_spaces [] = []
skip_spaces (c ∷ str) = let rest = skip_spaces str in if isspace c then rest else c ∷ str

-- Whether a minus stands there, and the memory behind the sign.
pub read_sign : List ℕ → Option (Bool × List ℕ)
read_sign [] = none
read_sign (c ∷ str) =
    if c == 45
    then some (true, str)
    else if c == 43
    then some (false, str)
    else some (false, c ∷ str)

-- The base 16 or 8 behind a leading zero.
pub octal_or_hex : List ℕ → Option (ℕ × List ℕ)
octal_or_hex [] = none
octal_or_hex (c ∷ str) = if c == 88 || c == 120 then some (16, str) else some (8, c ∷ str)

pub guess_base : ℕ → List ℕ → Option (ℕ × List ℕ)
unfolding octal_or_hex
guess_base base [] = none
guess_base base (c ∷ str) =
    if not (base == 0)
    then some (base, c ∷ str)
    else if not (c == 48)
    then some (10, c ∷ str)
    else octal_or_hex str

-- The value of a digit, where `none` stands for -1.
pub digit_value : ℕ → Option ℕ
digit_value c =
    if leb 48 c && leb c 57
    then some (c - 48)
    else if leb 65 c && leb c 90
    then some (c - 65 + 10)
    else if leb 97 c && leb c 122
    then some (c - 97 + 10)
    else none

abbrev pub is_digit : ℕ → Option ℕ → Bool
is_digit base none = false
is_digit base (some value) = ltb value base

-- `ret` counts down, so that the least `int` is reached, too.
abbrev pub next_ret : ℕ → ℕ → Option ℕ → ℕ
next_ret base ret none = ret
next_ret base ret (some value) = (ret * base + (2 ^ 32 - value)) % 2 ^ 32

-- The loop of `strtol`: `ret` and the memory from `nptr` on.
pub read_digits : ℕ → ℕ → List ℕ → Option (ℕ × List ℕ)
unfolding digit_value
read_digits base ret [] = none
read_digits base ret (c ∷ str) =
    let rest = read_digits base (next_ret base ret (digit_value c)) str in
    if c == 0
    then some (ret, c ∷ str)
    else if not (is_digit base (digit_value c))
    then some (ret, c ∷ str)
    else rest

-- The result and the memory from `*endptr` on. `sign` is -1 where there is no minus.
pub strtol : List ℕ → ℕ → Option (ℕ × List ℕ)
unfolding skip_spaces read_sign guess_base read_digits
strtol str base = do
  (minus, behind_sign) ← read_sign (skip_spaces str)
  (base', digits) ← guess_base base behind_sign
  (ret, end) ← read_digits base' 0 digits
  some (if minus then ret else (2 ^ 32 - ret) % 2 ^ 32, end)

pub atoi : List ℕ → Option ℕ
unfolding strtol
atoi str = strtol str 10 >>= (λ (ret, end). some ret)
