-- ===== src/Klib/Ringbuffer/Fifo.antt =====
-- A ring buffer is first in, first out across a write and a read, and a fresh one is valid.
use potatoes.Prelude.{
  ℕ, ◌+◌, ◌-◌, ◌^◌, ◌≤◌, ◌<◌, ◌≡◌, refl, ap, ap₂, sym, Bool, false, ◌⊎◌, inl, inr, get_or, ◌%◌,
  zero, suc, take-all, drop-all, length-take, ◌∙◌, List, [], ◌∷◌, ◌++◌, arith, length, take, drop,
  Option, none, some, true, take-length, length-append, min,
}
use potatoes.Prelude.Int.{pos}
use potatoes.Klib.Memory.{memcpy-take}
use potatoes.Klib.Ringbuffer.{RingFifo, rf_alloc, rf_copy, rf_write, rf_read}
use potatoes.Klib.Ringbuffer.Queue.{contents, slice, IsValid, length-slice}
use native.Mathlib.Nat.{mod-eq_of_lt, le_refl}
use potatoes.Klib.Ringbuffer.Write.{rf_write_lem}
use potatoes.Klib.Ringbuffer.Read.{rf_read_lem}

-- What `rf_alloc` returned: NULL where an allocation failed, else an empty valid ring buffer.
abbrev pub Alloced : ℕ → Bool → Option (List ℕ) → Option RingFifo → Type 0
Alloced size got block none = (got ≡ false) ⊎ (block ≡ none)
Alloced size got block (some f) = IsValid f × (contents f ≡ []) × (f.size ≡ size)

-- `rf_alloc` with a positive size below 2 ^ 31 and a block of that size gives an empty, valid ring
-- buffer of that size, and NULL where either allocation fails.
pub rf_alloc-IsValid :
    (size : ℕ) (got : Bool) (block : Option (List ℕ))
    → 0 < size
    → size < 2 ^ 31
    → ((b : List ℕ) → block ≡ some b → size ≤ length b)
    → Alloced size got block (rf_alloc size got block)
unfolding rf_alloc
rf_alloc-IsValid size false block p q h = inl refl
rf_alloc-IsValid size true none p q h = inr refl
rf_alloc-IsValid size true (some b) p q h = (
  record {
    storage = h b refl;
    pos_size = p;
    small = q;
    start_in = p;
    len_in = omega arith;
    end_at = sym (mod-eq_of_lt p);
  },
  refl,
  refl,
)

-- The front of a list is seen alike through a copy of it.
get_or-take :
    (xs ys : List ℕ) (n i : ℕ)
    → i < n
    → n ≤ length xs
    → get_or (take n xs ++ ys) i 0 ≡ get_or xs i 0
get_or-take xs ys zero i h k = absurd (omega arith)
get_or-take [] ys (suc n) i h k = absurd (omega arith)
get_or-take (x ∷ xs) ys (suc n) zero h k = refl
get_or-take (x ∷ xs) ys (suc n) (suc i) h k = get_or-take xs ys n i (omega arith) (omega arith)

slice-take :
    (xs ys : List ℕ) (m k n : ℕ)
    → 0 < m
    → m ≤ length xs
    → slice (take m xs ++ ys) m k n ≡ slice xs m k n
slice-take xs ys m k zero p h = refl
slice-take xs ys m k (suc n) p h =
    ap₂ ◌∷◌ (get_or-take xs ys m (k % m) (omega arith) h) (slice-take xs ys m (k + 1) n p h)

-- `rf_copy` of a valid ring buffer into a block of its size is valid, holds the same bytes, and has
-- the same size.
pub rf_copy_lem :
    {f : RingFifo} (block : List ℕ)
    → IsValid f
    → f.size ≤ length block
    → (g : RingFifo) × (rf_copy f true (some block) ≡ some g)
      × IsValid g
      × (contents g ≡ contents f)
      × (g.size ≡ f.size)
unfolding rf_copy
rf_copy_lem {f} block v h = (
  record f { cells = take f.size f.cells ++ drop f.size block },
  rw (memcpy-take block f.cells f.size h v.storage),
  record {
    storage = omega (
      arith,
      length-append {0} (take f.size f.cells) (drop f.size block),
      length-take {0} f.size f.cells,
      v.storage,
    );
    pos_size = v.pos_size;
    small = v.small;
    start_in = v.start_in;
    len_in = v.len_in;
    end_at = v.end_at;
  },
  slice-take f.cells (drop f.size block) f.size f.start f.len v.pos_size v.storage,
  refl,
)

-- What fits into a ring buffer comes out of it again behind what it held, in order: writing `xs`
-- and then reading all bytes fills the destination with the old contents and `xs`, and leaves the
-- ring buffer empty.
pub rf_read-rf_write :
    {f : RingFifo} (xs dest : List ℕ)
    → IsValid f
    → f.len + length xs ≤ f.size
    → f.len + length xs ≤ length dest
    → (g h : RingFifo) × (rf_write (some f) (some xs) (length xs) ≡ some (some g, pos (length xs)))
      × (rf_read (some g) (some dest) (f.len + length xs)
          ≡ some (
            some h,
            some ((contents f ++ xs) ++ drop (f.len + length xs) dest),
            pos (f.len + length xs),
          ))
      × (contents h ≡ [])
rf_read-rf_write {f} xs dest v fits room =
    let n = f.len + length xs in
    let (g, wrote, valid, held, same) = rf_write_lem xs (length xs) v (le_refl (length xs)) in
    let all : min (length xs) (f.size - f.len) ≡ length xs = omega arith in
    let bytes : contents g ≡ contents f ++ xs =
      held ∙ (rw all (ap (λ t. contents f ++ t) (take-length xs))) in
    let count : g.len ≡ n =
      sym (length-slice g.cells g.size g.start g.len)
      ∙ (ap length bytes
          ∙ omega (
            arith,
            length-append {0} (contents f) xs,
            length-slice f.cells f.size f.start f.len,
          )) in
    let (h, read, valid', left, same') = rf_read_lem {f = g} dest n valid (omega (arith, count)) in
    let asked : min n g.len ≡ n = omega (arith, count) in
    let whole : length (contents f ++ xs) ≡ n =
      ap length (sym bytes) ∙ (length-slice g.cells g.size g.start g.len ∙ count) in
    (
      g,
      h,
      wrote ∙ ap (λ t. some (some g, pos t)) all,
      read
          ∙ ap₂ (λ c t. some (some h, some (c ++ drop t dest), pos t))
              (ap (take n) bytes ∙ take-all (contents f ++ xs) n whole) asked,
      left ∙ (ap (drop n) bytes ∙ drop-all (contents f ++ xs) n whole),
    )
