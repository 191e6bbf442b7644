-- ===== src/Mm/Heap/Tests.antt =====
-- A heap of 4 KB with one block of 100 bytes at its start.
use potatoes.Prelude.{
  ℕ, ◌+◌, ◌≡◌, ◌⊎◌, refl, false, [], ◌∷◌, some, ◌==◌, if◌then◌else◌, arith, replicate,
}
use potatoes.Klib.Strings.Text.{cstr}
use potatoes.Mm.Paging.{Paging, zero_page}
use potatoes.Mm.Heap.{Header, header_size, Heap, create_heap, heap_mallocn, heap_free}
use potatoes.Mm.Heap.Chain.{IsHeap}
use potatoes.Mm.Heap.Search.{NoBetter}
use potatoes.Mm.Heap.Malloc.{Placed, heap_mallocn-Placed}
use potatoes.Mm.Heap.Free.{heap_free-IsHeap}
use potatoes.Mm.Heap.Create.{create_heap-IsHeap}

abbrev header : ℕ → ℕ → ℕ → Header
header p n z = record { prev = p; next = n; name = replicate 32 0; size = z }

abbrev memory : ℕ → Header
memory a =
    if a == 4096
    then header 8148 4140 0
    else if a == 4140
    then header 4096 8148 100
    else if a == 8148
    then header 4140 4096 0
    else header 0 0 0

abbrev heap : Heap
heap = record {
  mem = memory;
  start = 4096;
  end = 8148;
  max_addr = 8192;
  supervisor = false;
  readonly = false;
}

heap-IsHeap : IsHeap heap (4140 ∷ 8148 ∷ [])
heap-IsHeap = record {
  chain = ((refl, refl, omega arith), ((refl, refl, omega arith), refl));
  apart = omega arith;
  closed_next = refl;
  closed_prev = refl;
  small = omega arith;
  names = λ a. ground arith;
}

abbrev paging : Paging
paging = record {
  placement_addr = 0;
  tables = λ i. 0;
  tables_physical = λ i. 0;
  pages = λ n. zero_page;
  bitmap = record { words = []; nframes = 0 };
}

heap_mallocn-Placed_example :
    ((h : Heap) × (r : ℕ) × (heap_mallocn 1 3 200 (cstr (b'a' ∷ []) []) heap paging
        ≡ some (h, paging, some r))
      × Placed heap (4140 ∷ 8148 ∷ []) 200 h r)
    ⊎ NoBetter memory 244 0 (4140 ∷ 8148 ∷ [])
heap_mallocn-Placed_example =
    heap_mallocn-Placed heap-IsHeap 200 (omega arith) (b'a' ∷ []) [] (omega arith) 0 3 paging
      (omega arith)

heap_free-IsHeap_example :
    IsHeap (record heap { mem = heap_free memory 4184 }) (8148 ∷ [])
    × ((x : ℕ) → (heap_free memory 4184 x).size ≡ (memory x).size)
heap_free-IsHeap_example = heap_free-IsHeap [] 4140 8148 [] heap-IsHeap

create_heap-IsHeap_example :
    (h : Heap) × (create_heap (λ a. header 0 0 0) 4096 8192 8192 false false ≡ some h)
    × (h.start ≡ 4096)
    × (h.end + header_size ≡ 8192)
    × IsHeap h (h.end ∷ [])
create_heap-IsHeap_example =
    create_heap-IsHeap (λ a. header 0 0 0) 4096 8192 8192 false false (λ a. refl) refl (omega arith)
      (omega arith)
