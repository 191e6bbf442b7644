-- ===== src/Klib/Ringbuffer/Write.antt =====
-- `rf_write`: how many bytes it takes, and which.
use potatoes.Prelude.{
  ℕ, zero, suc, ◌+◌, ◌-◌, ◌%◌, ◌≤◌, ◌<◌, ◌≡◌, refl, sym, ap, ◌∙◌, List, [], ◌∷◌, ◌++◌, append-nil,
  append_assoc, arith, length, take, set, length-set, some, ◌==◌, Bool-cases, inl, inr, min, ==→eq,
  ==→ne,
}
use potatoes.Prelude.Int.{pos}
use potatoes.Klib.Ringbuffer.{RingFifo, rf_isfull, rf_put, rf_write_loop, rf_write}
use potatoes.Klib.Ringbuffer.Queue.{contents, IsValid, slice, slice-put}
use native.Mathlib.Nat.{mod-add-mod}

-- The buffer after one byte more.
abbrev pub put : RingFifo → ℕ → RingFifo
put f x = record f { cells = set f.cells f.end x; end = (f.end + 1) % f.size; len = suc f.len }

module _ {f : RingFifo} (v : IsValid f) (room : f.len < f.size) (x : ℕ) where
  rf_put-put : rf_put f x ≡ some (put f x)
  unfolding rf_put
  rf_put-put = ground arith

  put-IsValid : IsValid (put f x)
  put-IsValid = record {
    storage = omega (arith, length-set f.cells f.end x);
    pos_size = v.pos_size;
    small = v.small;
    start_in = v.start_in;
    len_in = room;
    end_at =
        ap (λ t. (t + 1) % f.size) v.end_at
        ∙ (mod-add-mod (f.start + f.len) f.size 1 ∙ ap (λ t. t % f.size) (omega arith));
  }

  contents-put : contents (put f x) ≡ contents f ++ (x ∷ [])
  contents-put =
      ap (λ i. slice (set f.cells i x) f.size f.start (suc f.len)) v.end_at
      ∙ slice-put f.cells f.size f.start f.len x v.storage v.start_in room

-- What `rf_write_loop` has done when it stops.
pub record Wrote (f : RingFifo) (buf : List ℕ) (n : ℕ) (f' : RingFifo) : Type 0 where
  pub valid : IsValid f'
  pub bytes : contents f' ≡ contents f ++ take (min n (f.size - f.len)) buf
  pub same_size : f'.size ≡ f.size

-- The loop never faults, and the buffer that it leaves.
pub rf_write_loop_lem :
    (n : ℕ) {f : RingFifo} (buf : List ℕ) (w : ℕ)
    → IsValid f
    → n ≤ length buf
    → (f' : RingFifo) × (rf_write_loop n f buf w ≡ some (f', w + min n (f.size - f.len)))
      × Wrote f buf n f'
unfolding rf_write_loop rf_isfull
rf_write_loop_lem zero {f} buf w v h =
    let nothing : min 0 (f.size - f.len) ≡ 0 = omega arith in
    (
      f,
      ap (λ t. some (f, t)) (omega arith),
      record { valid = v; bytes = rw nothing (sym (append-nil (contents f))); same_size = refl },
    )
rf_write_loop_lem (suc n) [] w v h = absurd (omega arith)
rf_write_loop_lem (suc n) {f} (x ∷ buf) w v h = elim (Bool-cases (f.len == f.size)) [
  | inl full ↦
      let none_left : min (suc n) (f.size - f.len) ≡ 0 = omega (arith, ==→eq f.len f.size full) in
      (
        f,
        rw full (ap (λ t. some (f, t)) (omega arith)),
        record {
          valid = v;
          bytes = rw none_left (sym (append-nil (contents f)));
          same_size = refl;
        },
      )
  | inr more ↦
      let room : f.len < f.size = omega (arith, ==→ne f.len f.size more, v.len_in) in
      let (f', ran, done) =
        rf_write_loop_lem n {f = put f x} buf (w + 1) (put-IsValid v room x) (omega arith) in
      let left : min (suc n) (f.size - f.len) ≡ suc (min n (f.size - suc f.len)) = omega arith in
      (
        f',
        rw (more, rf_put-put v room x) (ran ∙ ap (λ t. some (f', t)) (omega arith)),
        record {
          valid = done.valid;
          bytes =
              done.bytes
              ∙ (ap (λ t. t ++ take (min n (f.size - suc f.len)) buf) (contents-put v room x)
                  ∙ rw left
                      (append_assoc (contents f) (x ∷ []) (take (min n (f.size - suc f.len)) buf)));
          same_size = done.same_size;
        },
      )
]

-- On a valid ring buffer, with a source of at least `count` bytes, `rf_write` does not fault. It
-- returns the number of bytes that fit (`count`, or the free space if that is less), appends
-- exactly the first so many bytes of the source to the contents, and leaves a valid ring buffer of
-- the same size.
pub rf_write_lem :
    {f : RingFifo} (buf : List ℕ) (count : ℕ)
    → IsValid f
    → count ≤ length buf
    → (f' : RingFifo) × (rf_write (some f) (some buf) count
        ≡ some (some f', pos (min count (f.size - f.len))))
      × IsValid f'
      × (contents f' ≡ contents f ++ take (min count (f.size - f.len)) buf)
      × (f'.size ≡ f.size)
unfolding rf_write
rf_write_lem {f} buf count v h =
    let (f', ran, done) = rf_write_loop_lem count buf 0 v h in
    (
      f',
      rw ran (ap (λ t. some (some f', pos t)) (omega arith)),
      done.valid,
      done.bytes,
      done.same_size,
    )
