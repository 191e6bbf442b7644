-- ===== src/Klib/Ringbuffer.antt =====
-- The ring buffer of src/kernel/lib/ringbuffer.c. A pointer argument that may be NULL is an option;
-- a fault (an access outside an array, a remainder by zero) is `none`. `buf` is the memory from the
-- pointer on, so that `*buf++` consumes it.
pub mod Queue
pub mod Write
pub mod Read
pub mod Fifo
mod Tests
use potatoes.Prelude.{
  ℕ, zero, suc, ◌+◌, ◌-◌, ◌%◌, ◌^◌, Bool, Option, none, some, List, [], ◌∷◌, ◌==◌, if◌then◌else◌,
  ◌>>=◌, store, get_elem?,
}
use potatoes.Klib.Memory.{memcpy}
use potatoes.Prelude.Int.{ℤ, pos, negsuc}

-- `ring_fifo`; `cells` is its `data`.
pub record RingFifo : Type 0 where
  pub cells : List ℕ
  pub size : ℕ
  pub start : ℕ
  pub end : ℕ
  pub len : ℕ

pub rf_clear : RingFifo → RingFifo
rf_clear f = record f { start = 0; end = 0; len = 0 }

-- The two calls of `mallocn` come in as what they return: whether the structure was allocated, and
-- the block for the data with whatever it holds.
pub rf_alloc : ℕ → Bool → Option (List ℕ) → Option RingFifo
unfolding rf_clear
rf_alloc size got block =
    if got
    then block
      >>= (λ d. some (rf_clear (record { cells = d; size = size; start = 0; end = 0; len = 0 })))
    else none

-- The result of `rf_alloc` is used untested, so that NULL is a fault.
pub rf_copy : RingFifo → Bool → Option (List ℕ) → Option RingFifo
unfolding rf_alloc
rf_copy f got block = do
  ret ← rf_alloc f.size got block
  d ← memcpy ret.cells f.cells f.size
  some (record ret { cells = d; start = f.start; end = f.end; len = f.len })

pub rf_getlength : RingFifo → ℕ
rf_getlength f = f.len

pub rf_isfull : RingFifo → Bool
rf_isfull f = f.len == f.size

pub rf_isempty : RingFifo → Bool
rf_isempty f = f.len == 0

-- `(i + 1) % size` on `uint32`.
pub next_index : ℕ → ℕ → Option ℕ
next_index i size = if size == 0 then none else some ((i + 1) % 2 ^ 32 % size)

-- One round of `rf_write` past its test for a full buffer.
pub rf_put : RingFifo → ℕ → Option RingFifo
unfolding next_index
rf_put f x = do
  d ← store f.cells f.end x
  e ← next_index f.end f.size
  some (record f { cells = d; end = e; len = (f.len + 1) % 2 ^ 32 })

pub rf_write_loop : ℕ → RingFifo → List ℕ → ℕ → Option (RingFifo × ℕ)
rf_write_loop zero f buf written = some (f, written)
rf_write_loop (suc n) f [] written = if rf_isfull f then some (f, written) else none
rf_write_loop (suc n) f (x ∷ buf) written =
    let rest = rf_put f x >>= (λ f'. rf_write_loop n f' buf (written + 1)) in
    if rf_isfull f then some (f, written) else rest

pub rf_write : Option RingFifo → Option (List ℕ) → ℕ → Option (Option RingFifo × ℤ)
unfolding rf_write_loop
rf_write none buf count = some (none, negsuc 0)
rf_write (some f) none count = some (some f, negsuc 0)
rf_write (some f) (some buf) count = do
  (f', written) ← rf_write_loop count f buf 0
  some (some f', pos written)

-- One round of `rf_read` past its test for an empty buffer: the byte and the buffer without it.
pub rf_take : RingFifo → Option (ℕ × RingFifo)
unfolding next_index
rf_take f = do
  x ← get_elem? f.cells f.start
  s ← next_index f.start f.size
  some (x, record f { start = s; len = (f.len + 2 ^ 32 - 1) % 2 ^ 32 })

-- The destination from the pointer on goes in, and comes back as the loop leaves it.
pub rf_read_loop : ℕ → RingFifo → List ℕ → ℕ → Option (RingFifo × List ℕ × ℕ)
rf_read_loop zero f buf read = some (f, buf, read)
rf_read_loop (suc n) f [] read = if rf_isempty f then some (f, [], read) else none
rf_read_loop (suc n) f (b ∷ buf) read =
    let rest = rf_take f >>= (λ (x, f').
      rf_read_loop n f' buf (read + 1) >>= (λ (f'', buf', read'). some (f'', x ∷ buf', read'))) in
    if rf_isempty f then some (f, b ∷ buf, read) else rest

pub rf_read : Option RingFifo → Option (List ℕ) → ℕ → Option (Option RingFifo × Option (List ℕ) × ℤ)
unfolding rf_read_loop
rf_read none buf count = some (none, buf, negsuc 0)
rf_read (some f) none count = some (some f, none, negsuc 0)
rf_read (some f) (some buf) count = do
  (f', buf', read) ← rf_read_loop count f buf 0
  some (some f', some buf', pos read)
