-- ===== src/Mm/Heap/Create.antt =====
-- `create_heap`.
use potatoes.Prelude.{
  ℕ, ◌+◌, ◌-◌, ◌^◌, ◌≤◌, ◌≡◌, refl, ap, ap₂, ◌∙◌, Bool, List, [], ◌∷◌, ◌++◌, Option, some, ◌>>=◌,
  arith, length, take, drop, replicate, length-append, length-take, length-drop, length-replicate,
  bit_and, eq→==,
}
use potatoes.Klib.Strings.Text.{IsText, cstr}
use potatoes.Klib.Strings.Copy.{strncpy-take}
use potatoes.Mm.Heap.{
  Header, header_size, Heap, write, minus, copy_name, align_up, first_headers, create_heap,
}
use potatoes.Mm.Heap.Chain.{IsHeap}

copy_name-length :
    (old s : List ℕ)
    → length old ≡ 32
    → IsText s
    → (copy : List ℕ) × (copy_name old (cstr s []) ≡ some copy) × (length copy ≡ 32)
copy_name-length old s size t = (
  take 31 s ++ (replicate (31 - length s) 0 ++ drop 31 old),
  strncpy-take s [] old 31 t (omega arith),
  omega (
    arith,
    length-append {0} (take 31 s) (replicate (31 - length s) 0 ++ drop 31 old),
    length-append {0} (replicate (31 - length s) 0) (drop 31 old),
    length-take {0} 31 s,
    length-drop {0} 31 old,
    length-replicate {0} {A = ℕ} (31 - length s) 0,
  ),
)

-- The heap with its two ends and no block.
abbrev pub blank_heap : (ℕ → Header) → ℕ → ℕ → ℕ → Bool → Bool → Heap
blank_heap mem start end max_addr supervisor readonly = record {
  mem = mem;
  start = start;
  end = end;
  max_addr = max_addr;
  supervisor = supervisor;
  readonly = readonly;
}

module _ (mem : ℕ → Header) (names : (a : ℕ) → length (mem a).name ≡ 32) (start end : ℕ)
    (apart : start + header_size ≤ end) (small : end + header_size ≤ 0x1_0000_0000) (max_addr : ℕ)
    (supervisor readonly : Bool) where
  abbrev ends : List ℕ → List ℕ → ℕ → Header
  ends s e =
      write (write mem start (record { prev = end; next = end; name = s; size = 0 })) end
        (record { prev = start; next = start; name = e; size = 0 })

  ends-IsHeap :
      (s e : List ℕ)
      → length s ≡ 32
      → length e ≡ 32
      → IsHeap (blank_heap (ends s e) start end max_addr supervisor readonly) (end ∷ [])
  ends-IsHeap s e k l = record {
    chain = ((ground arith, ground arith, ground arith), refl);
    apart = omega arith;
    closed_next = ground arith;
    closed_prev = ground arith;
    small = small;
    names = λ a. ground (arith, names a);
  }

  first_headers-IsHeap :
      (mem' : ℕ → Header) × (first_headers mem start end ≡ some mem')
      × IsHeap (blank_heap mem' start end max_addr supervisor readonly) (end ∷ [])
  unfolding first_headers
  first_headers-IsHeap =
      let (s, named, k) =
        copy_name-length (mem start).name (b's' ∷ b't' ∷ b'a' ∷ b'r' ∷ b't' ∷ []) (names start)
          (omega arith) in
      let m1 : ℕ → Header =
        write mem start (record { prev = end; next = end; name = s; size = 0 }) in
      let (e, named', l) =
        copy_name-length (m1 end).name (b'e' ∷ b'n' ∷ b'd' ∷ []) (ground (arith, names end))
          (omega arith) in
      (ends s e, rw (named, named') refl, ends-IsHeap s e k l)

-- `create_heap` from a start address with bit 0 clear to an end address at least two headers above
-- it gives a well-formed heap with no block.
pub create_heap-IsHeap :
    (mem : ℕ → Header) (start_addr end_addr max_addr : ℕ) (supervisor readonly : Bool)
    → ((a : ℕ) → length (mem a).name ≡ 32)
    → bit_and start_addr 1 ≡ 0
    → start_addr + 88 ≤ end_addr
    → end_addr ≤ 2 ^ 32
    → (h : Heap) × (create_heap mem start_addr end_addr max_addr supervisor readonly ≡ some h)
      × (h.start ≡ start_addr)
      × (h.end + header_size ≡ end_addr)
      × IsHeap h (h.end ∷ [])
unfolding create_heap
create_heap-IsHeap mem start_addr end_addr max_addr supervisor readonly names even room small =
    let end : ℕ = end_addr - header_size in
    let at : minus end_addr header_size ≡ end = omega arith in
    let aligned : align_up start_addr ≡ start_addr =
      rw (eq→== (bit_and start_addr 1) 0 even) refl in
    let (mem', ran, valid) =
      first_headers-IsHeap mem names start_addr end (omega arith) (omega arith) max_addr supervisor
        readonly in
    let made : ℕ → ℕ → Option Heap = λ a e.
      first_headers mem a e >>= (λ m. some (blank_heap m a e max_addr supervisor readonly)) in
    (
      blank_heap mem' start_addr end max_addr supervisor readonly,
      ap₂ made aligned at
          ∙ ap (λ o. o >>= (λ m. some (blank_heap m start_addr end max_addr supervisor readonly)))
              ran,
      refl,
      omega arith,
      valid,
    )
