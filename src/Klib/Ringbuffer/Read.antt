-- ===== src/Klib/Ringbuffer/Read.antt =====
-- `rf_read`: how many bytes it hands out, and which.
use potatoes.Prelude.{
  ℕ, zero, suc, ◌+◌, ◌-◌, ◌%◌, ◌≤◌, ◌≡◌, ◌≢◌, refl, sym, ap, ap₂, ◌∙◌, List, [], ◌∷◌, ◌++◌, arith,
  length, take, drop, some, ◌==◌, Bool-cases, inl, inr, min, eq→==, ==→eq, ==→ne,
  get_elem?-eq-get_or, get_or, drop-nil, take-nil,
}
use potatoes.Prelude.Int.{pos}
use potatoes.Klib.Ringbuffer.{RingFifo, rf_isempty, rf_take, rf_read_loop, rf_read}
use potatoes.Klib.Ringbuffer.Queue.{contents, IsValid, slice, slice-next}
use native.Mathlib.Nat.{mod-eq_of_lt, mod-add-mod}

-- The buffer without its oldest byte, and that byte.
abbrev pub rest : RingFifo → RingFifo
rest f = record f { start = (f.start + 1) % f.size; len = f.len - 1 }

abbrev pub oldest : RingFifo → ℕ
oldest f = get_or f.cells f.start 0

module _ {f : RingFifo} (v : IsValid f) (some_left : f.len ≢ 0) where
  rf_take-rest : rf_take f ≡ some (oldest f, rest f)
  unfolding rf_take
  rf_take-rest = ground (arith, get_elem?-eq-get_or f.cells f.start 0 (omega arith))

  rest-IsValid : IsValid (rest f)
  rest-IsValid = record {
    storage = v.storage;
    pos_size = v.pos_size;
    small = v.small;
    start_in = omega arith;
    len_in = omega arith;
    end_at =
        v.end_at
        ∙ (ap (λ t. t % f.size) (omega arith) ∙ sym (mod-add-mod (f.start + 1) f.size (f.len - 1)));
  }

  contents-rest : contents f ≡ oldest f ∷ contents (rest f)
  contents-rest =
      ap (slice f.cells f.size f.start) one_more
      ∙ ap₂ (λ i t. get_or f.cells i 0 ∷ t) (mod-eq_of_lt v.start_in)
          (sym (slice-next f.cells f.size f.start (f.len - 1)))
    where
      one_more : f.len ≡ suc (f.len - 1)
      one_more = omega arith

pub record HasRead (f : RingFifo) (buf : List ℕ) (n : ℕ) (f' : RingFifo) (buf' : List ℕ)
    : Type 0 where
  pub valid : IsValid f'
  pub left : contents f' ≡ drop n (contents f)
  pub copied : buf' ≡ take n (contents f) ++ drop (min n f.len) buf
  pub same_size : f'.size ≡ f.size

HasRead-empty :
    {f : RingFifo} {n : ℕ} {buf : List ℕ} → IsValid f → f.len ≡ 0 → HasRead f buf n f buf
HasRead-empty {f} {n} {buf} v empty = record {
  valid = v;
  left = rw hollow (sym (drop-nil n));
  copied = rw (hollow, take-nil n, nothing);
  same_size = refl;
}
  where
    hollow : contents f ≡ []
    hollow = ap (slice f.cells f.size f.start) empty

    nothing : min n f.len ≡ 0
    nothing = omega arith

pub rf_read_loop_lem :
    (n : ℕ) {f : RingFifo} (buf : List ℕ) (r : ℕ)
    → IsValid f
    → min n f.len ≤ length buf
    → (f' : RingFifo) × (buf' : List ℕ) × (rf_read_loop n f buf r
        ≡ some (f', buf', r + min n f.len))
      × HasRead f buf n f' buf'
unfolding rf_read_loop rf_isempty
rf_read_loop_lem zero {f} buf r v h =
    let nothing : min 0 f.len ≡ 0 = omega arith in
    (
      f,
      buf,
      ap (λ t. some (f, buf, t)) (omega arith),
      record { valid = v; left = refl; copied = rw nothing; same_size = refl },
    )
rf_read_loop_lem (suc n) {f} [] r v h =
    let empty : f.len ≡ 0 = omega arith in
    (
      f,
      [],
      rw (eq→== f.len 0 empty) (ap (λ t. some (f, [], t)) (omega arith)),
      HasRead-empty v empty,
    )
rf_read_loop_lem (suc n) {f} (b ∷ buf) r v h = elim (Bool-cases (f.len == 0)) [
  | inl none_left ↦
      let empty = ==→eq f.len 0 none_left in
      (
        f,
        b ∷ buf,
        rw none_left (ap (λ t. some (f, b ∷ buf, t)) (omega arith)),
        HasRead-empty v empty,
      )
  | inr more ↦
      let ne = ==→ne f.len 0 more in
      let (f', buf', ran, done) =
        rf_read_loop_lem n {f = rest f} buf (r + 1) (rest-IsValid v ne) (omega arith) in
      let count : min (suc n) f.len ≡ suc (min n (f.len - 1)) = omega arith in
      (
        f',
        oldest f ∷ buf',
        rw (more, rf_take-rest v ne, ran) (ap (λ t. some (f', oldest f ∷ buf', t)) (omega arith)),
        record {
          valid = done.valid;
          left = rw (contents-rest v ne) done.left;
          copied =
              ap (λ t. oldest f ∷ t) done.copied
              ∙ ap₂ (λ c k. take (suc n) c ++ drop k (b ∷ buf)) (sym (contents-rest v ne))
                  (sym count);
          same_size = done.same_size;
        },
      )
]

-- On a valid ring buffer, with room in the destination for the bytes that it hands out, `rf_read`
-- does not fault. It returns how many that are (`count`, or the number of bytes held if that is
-- less), writes the oldest bytes in order to the front of the destination and nothing behind them,
-- drops exactly those from the contents, and leaves a valid ring buffer of the same size.
pub rf_read_lem :
    {f : RingFifo} (buf : List ℕ) (count : ℕ)
    → IsValid f
    → min count f.len ≤ length buf
    → (f' : RingFifo) × (rf_read (some f) (some buf) count
        ≡ some (
          some f',
          some (take count (contents f) ++ drop (min count f.len) buf),
          pos (min count f.len),
        ))
      × IsValid f'
      × (contents f' ≡ drop count (contents f))
      × (f'.size ≡ f.size)
unfolding rf_read
rf_read_lem {f} buf count v h =
    let (f', buf', ran, done) = rf_read_loop_lem count buf 0 v h in
    (
      f',
      rw ran (ap₂ (λ b n. some (some f', some b, pos n)) done.copied (omega arith)),
      done.valid,
      done.left,
      done.same_size,
    )
