-- ===== src/Klib/Ringbuffer/Tests.antt =====
-- Runs of the ring buffer, and its theorems at concrete buffers.
use potatoes.Prelude.{length, ℕ, ◌≤◌, ◌≡◌, refl, List, [], ◌∷◌, none, some, arith}
use potatoes.Prelude.Int.{pos, negsuc}
use potatoes.Klib.Ringbuffer.{RingFifo, rf_write, rf_read, rf_put, rf_take, rf_isfull, rf_isempty}
use potatoes.Klib.Ringbuffer.Queue.{contents, IsValid}
use potatoes.Klib.Ringbuffer.Write.{rf_write_lem}
use potatoes.Klib.Ringbuffer.Read.{rf_read_lem}
use potatoes.Klib.Ringbuffer.Fifo.{rf_read-rf_write}
use mathlib.Core.Option.{some-injective}
use mathlib.Core.Path.{subst}

-- 8, then 9, round the end of the cells.
abbrev wrapped : RingFifo
wrapped = record { cells = 9 ∷ 7 ∷ 8 ∷ []; size = 3; start = 2; end = 1; len = 2 }

abbrev block : List ℕ
block = 0 ∷ 0 ∷ 0 ∷ []

wrapped-IsValid : IsValid wrapped
wrapped-IsValid = omega arith

write_stops_when_full :
    rf_write (some wrapped) (some (4 ∷ 5 ∷ [])) 2
    ≡ some (some (record { cells = 9 ∷ 4 ∷ 8 ∷ []; size = 3; start = 2; end = 2; len = 3 }), pos 1)
unfolding rf_write rf_put rf_isfull
write_stops_when_full = refl

read_stops_when_empty :
    rf_read (some wrapped) (some (0 ∷ 0 ∷ 6 ∷ [])) 3
    ≡ some (
      some (record { cells = 9 ∷ 7 ∷ 8 ∷ []; size = 3; start = 1; end = 1; len = 0 }),
      some (8 ∷ 9 ∷ 6 ∷ []),
      pos 2,
    )
unfolding rf_read rf_take rf_isempty
read_stops_when_empty = refl

write_null : rf_write (some wrapped) none 2 ≡ some (some wrapped, negsuc 0)
unfolding rf_write
write_null = refl

rf_write_lem_example :
    (f : RingFifo) × (rf_write (some wrapped) (some (4 ∷ 5 ∷ [])) 2 ≡ some (some f, pos 1))
    × IsValid f
    × (contents f ≡ 8 ∷ 9 ∷ 4 ∷ [])
    × (f.size ≡ 3)
rf_write_lem_example = rf_write_lem (4 ∷ 5 ∷ []) 2 wrapped-IsValid (omega arith)

rf_read_lem_example :
    (f : RingFifo) × (rf_read (some wrapped) (some (0 ∷ 0 ∷ 6 ∷ [])) 3
      ≡ some (some f, some (8 ∷ 9 ∷ 6 ∷ []), pos 2))
    × IsValid f
    × (contents f ≡ [])
    × (f.size ≡ 3)
rf_read_lem_example = rf_read_lem (0 ∷ 0 ∷ 6 ∷ []) 3 wrapped-IsValid (omega arith)

block_fits : (b : List ℕ) → some block ≡ some b → 3 ≤ length b
block_fits b e = subst (λ c. 3 ≤ length c) (some-injective block b e) (omega arith)

rf_read-rf_write_example :
    (g h : RingFifo) × (rf_write (some wrapped) (some (4 ∷ [])) 1 ≡ some (some g, pos 1))
    × (rf_read (some g) (some (0 ∷ 0 ∷ 0 ∷ 6 ∷ [])) 3
        ≡ some (some h, some (8 ∷ 9 ∷ 4 ∷ 6 ∷ []), pos 3))
    × (contents h ≡ [])
rf_read-rf_write_example =
    rf_read-rf_write (4 ∷ []) (0 ∷ 0 ∷ 0 ∷ 6 ∷ []) wrapped-IsValid (omega arith) (omega arith)
