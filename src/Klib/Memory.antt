-- ===== src/Klib/Memory.antt =====
-- `memset`, `bzero`, `memcpy` and `memmove` of src/kernel/lib/string.c. Memory is the list of bytes
-- from a pointer on; running off its end is a fault, `none`.
mod Tests
use potatoes.Prelude.{
  ℕ, zero, suc, ◌+◌, ◌-◌, ◌≤◌, ◌<◌, ◌≡◌, refl, ap, ap₂, sym, ◌∙◌, List, [], ◌∷◌, ◌++◌, Option, none,
  some, ◌>>=◌, arith, length, take, drop, replicate, get_elem?, ltb, leb, if◌then◌else◌,
  length-take, length-drop, length-append, ◌&&◌, min,
}

pub memset : List ℕ → ℕ → ℕ → Option (List ℕ)
memset dest value zero = some dest
memset [] value (suc n) = none
memset (d ∷ dest) value (suc n) = memset dest value n >>= (λ r. some (value ∷ r))

pub bzero : List ℕ → ℕ → Option (List ℕ)
bzero dest count = memset dest 0 count

pub memcpy : List ℕ → List ℕ → ℕ → Option (List ℕ)
memcpy dest src zero = some dest
memcpy [] src (suc n) = none
memcpy (d ∷ dest) [] (suc n) = none
memcpy (d ∷ dest) (s ∷ src) (suc n) = memcpy dest src n >>= (λ r. some (s ∷ r))

-- Work on the memory from address `p` of `mem` on.
abbrev pub from_address : List ℕ → ℕ → (List ℕ → Option (List ℕ)) → Option (List ℕ)
from_address mem p f =
    if leb p (length mem) then (f (drop p mem) >>= (λ r. some (take p mem ++ r))) else none

-- `dest` and `src` are addresses of one memory, so that they may overlap. `temp` is the block that
-- `mallocn` returned; the code does not test it, so NULL is a fault.
pub memmove : List ℕ → ℕ → ℕ → ℕ → Option (List ℕ) → Option (List ℕ)
unfolding memcpy
memmove mem dest src count temp = do
  t ← temp
  t' ← memcpy t (drop src mem) count
  from_address mem dest (λ d. memcpy d t' count)

-- `memset` fills the first `count` bytes.
pub memset-replicate :
    (dest : List ℕ) (v n : ℕ)
    → n ≤ length dest
    → memset dest v n ≡ some (replicate n v ++ drop n dest)
unfolding memset
memset-replicate dest v zero h = refl
memset-replicate [] v (suc n) h = absurd (omega arith)
memset-replicate (d ∷ dest) v (suc n) h = rw (memset-replicate dest v n (omega arith))

pub bzero-replicate :
    (dest : List ℕ) (n : ℕ) → n ≤ length dest → bzero dest n ≡ some (replicate n 0 ++ drop n dest)
unfolding bzero
bzero-replicate dest n h = memset-replicate dest 0 n h

-- `memcpy` copies the first `count` bytes.
pub memcpy-take :
    (dest src : List ℕ) (n : ℕ)
    → n ≤ length dest
    → n ≤ length src
    → memcpy dest src n ≡ some (take n src ++ drop n dest)
unfolding memcpy
memcpy-take dest src zero h k = refl
memcpy-take [] src (suc n) h k = absurd (omega arith)
memcpy-take (d ∷ dest) [] (suc n) h k = absurd (omega arith)
memcpy-take (d ∷ dest) (s ∷ src) (suc n) h k =
    rw (memcpy-take dest src n (omega arith) (omega arith))

-- Memory that is too short.
pub memset-short : (dest : List ℕ) (v n : ℕ) → length dest < n → memset dest v n ≡ none
unfolding memset
memset-short dest v zero h = absurd (omega arith)
memset-short [] v (suc n) h = refl
memset-short (d ∷ dest) v (suc n) h = rw (memset-short dest v n (omega arith))

pub bzero-short : (dest : List ℕ) (n : ℕ) → length dest < n → bzero dest n ≡ none
unfolding bzero
bzero-short dest n h = memset-short dest 0 n h

pub memcpy-short : (dest src : List ℕ) (n : ℕ) → length dest < n → memcpy dest src n ≡ none
unfolding memcpy
memcpy-short dest src zero h = absurd (omega arith)
memcpy-short [] src (suc n) h = refl
memcpy-short (d ∷ dest) [] (suc n) h = refl
memcpy-short (d ∷ dest) (s ∷ src) (suc n) h = rw (memcpy-short dest src n (omega arith))

pub memcpy-short_source : (dest src : List ℕ) (n : ℕ) → length src < n → memcpy dest src n ≡ none
unfolding memcpy
memcpy-short_source dest src zero h = absurd (omega arith)
memcpy-short_source [] src (suc n) h = refl
memcpy-short_source (d ∷ dest) [] (suc n) h = refl
memcpy-short_source (d ∷ dest) (s ∷ src) (suc n) h =
    rw (memcpy-short_source dest src n (omega arith))

-- A step that fails whatever comes before it.
pub >>=-none {ℓ κ} :
    {A : Type ℓ} {B : Type κ} (o : Option A) (f : A → Option B)
    → ((a : A) → f a ≡ none)
    → o >>= f ≡ none
>>=-none none f h = refl
>>=-none (some a) f h = h a

pub take-front : (n : ℕ) (xs ys : List ℕ) → n ≤ length xs → take n (take n xs ++ ys) ≡ take n xs
take-front zero xs ys h = refl
take-front (suc n) [] ys h = absurd (omega arith)
take-front (suc n) (x ∷ xs) ys h = ap (λ t. x ∷ t) (take-front n xs ys (omega arith))

-- `memmove` moves `count` bytes, also where source and destination overlap, if `mallocn` gave a
-- block of at least `count` bytes: the bytes that stood at the source now stand at the destination,
-- and all others are as before.
pub memmove_lem :
    (mem t : List ℕ) (dest src count : ℕ)
    → dest + count ≤ length mem
    → src + count ≤ length mem
    → count ≤ length t
    → memmove mem dest src count (some t)
      ≡ some (take dest mem ++ (take count (drop src mem) ++ drop count (drop dest mem)))
unfolding memmove
memmove_lem mem t dest src count h k l =
    rw
      (
        memcpy-take t (drop src mem) count l (omega (arith, length-drop src mem)),
        memcpy-take (drop dest mem) (take count (drop src mem) ++ drop count t) count
            (omega (arith, length-drop dest mem)) long,
        take-front count (drop src mem) (drop count t) (omega (arith, length-drop src mem)),
      )
      (ground arith)
  where
    long : count ≤ length (take count (drop src mem) ++ drop count t)
    long = omega (
      arith,
      length-append {0} (take count (drop src mem)) (drop count t),
      length-take {0} count (drop src mem),
      length-drop {0} src mem,
    )
