-- ===== src/Mm/Heap.antt =====
-- The kernel heap, src/kernel/mm/mm_heap.c: a doubly linked ring of block headers in memory. The
-- source searches `kernel_heap` whatever heap it is given, and is only ever given that one, so that
-- there is one heap here. A pointer to a header is its address. A failed ASSERT is `none`.
pub mod Chain
pub mod Search
pub mod Insert
pub mod Malloc
pub mod Free
pub mod Create
mod Tests
use potatoes.Prelude.{
  ℕ, zero, suc, ◌+◌, ◌-◌, ◌*◌, ◌/◌, ◌%◌, ◌^◌, Bool, true, false, not, ◌&&◌, Option, none, some,
  List, [], ◌∷◌, ◌++◌, ◌==◌, ltb, leb, if◌then◌else◌, ◌>>=◌, bit_and, store,
}
use potatoes.Klib.Strings.{strncpy}
use potatoes.Mm.Paging.{Paging, get_page, alloc_frame_at, free_frame_at}

pub record Header : Type 0 where
  pub prev : ℕ
  pub next : ℕ
  pub name : List ℕ
  pub size : ℕ

abbrev pub header_size : ℕ
header_size = 44

-- `heap_t`, with the memory as the headers that stand, or would stand, at each address.
pub record Heap : Type 0 where
  pub mem : ℕ → Header
  pub start : ℕ
  pub end : ℕ
  pub max_addr : ℕ
  pub supervisor : Bool
  pub readonly : Bool

abbrev pub write : (ℕ → Header) → ℕ → Header → ℕ → Header
write mem at header a = if a == at then header else mem a

-- a - b on `uint32`.
abbrev pub minus : ℕ → ℕ → ℕ
minus a b = (a + 2 ^ 32 - b) % 2 ^ 32

-- `strncpy(header->name, name, sizeof(header->name) - 1)`, and with the terminator that
-- `heap_setup_block` adds.
abbrev pub copy_name : List ℕ → List ℕ → Option (List ℕ)
copy_name old name = strncpy old name 31

pub set_name : List ℕ → List ℕ → Option (List ℕ)
set_name old name = copy_name old name >>= (λ copy. store copy 31 0)

-- The headers that `create_heap` writes at both ends.
pub first_headers : (ℕ → Header) → ℕ → ℕ → Option (ℕ → Header)
first_headers mem start end = do
  start_name ← copy_name (mem start).name (b's' ∷ b't' ∷ b'a' ∷ b'r' ∷ b't' ∷ 0 ∷ [])
  let mem' : ℕ → Header =
      write mem start (record { prev = end; next = end; name = start_name; size = 0 })
  end_name ← copy_name (mem' end).name (b'e' ∷ b'n' ∷ b'd' ∷ 0 ∷ [])
  some (write mem' end (record { prev = start; next = start; name = end_name; size = 0 }))

-- In `start_addr & 0xFFFFF000 != 0` the comparison binds first, so that the test is on bit 0.
abbrev pub align_up : ℕ → ℕ
align_up a = if not (bit_and a 1 == 0) then (bit_and a 0xffff_f000 + 0x1000) % 2 ^ 32 else a

pub create_heap : (ℕ → Header) → ℕ → ℕ → ℕ → Bool → Bool → Option Heap
unfolding first_headers
create_heap mem start_addr end_addr max_addr supervisor readonly =
    let start = align_up start_addr in
    let end = minus end_addr header_size in
    first_headers mem start end >>= (λ mem'. some (record {
      mem = mem';
      start = start;
      end = end;
      max_addr = max_addr;
      supervisor = supervisor;
      readonly = readonly;
    }))

pub heap_get_size : Heap → ℕ
heap_get_size heap = (minus (heap.end + header_size) heap.start + 1) % 2 ^ 32

-- The loop of `heap_expand` over the new pages.
pub map_pages : ℕ → Heap → ℕ → ℕ → Paging → Option Paging
map_pages zero heap i new_size s = none
map_pages (suc fuel) heap i new_size s =
    let rest =
      alloc_frame_at heap.supervisor (not heap.readonly)
        (get_page s ((heap.start + i) % 2 ^ 32) true)
      >>= (λ s'. map_pages fuel heap ((i + 0x1000) % 2 ^ 32) new_size s') in
    if leb i new_size then rest else some s

-- The new header at the end, and the ring closed over it.
pub move_end : Heap → ℕ → Option Heap
move_end heap end_header = do
  let tmp : ℕ = (heap.mem heap.end).prev
  let m1 : ℕ → Header = write heap.mem tmp (record (heap.mem tmp) { next = end_header })
  end_name ← copy_name (m1 end_header).name (b'e' ∷ b'n' ∷ b'd' ∷ 0 ∷ [])
  let m2 : ℕ → Header =
      write m1 end_header (record { prev = tmp; next = heap.start; name = end_name; size = 0 })
  let m3 : ℕ → Header = write m2 heap.start (record (m2 heap.start) { prev = end_header; size = 0 })
  some (record heap { mem = m3; end = end_header })

pub heap_expand : ℕ → ℕ → Heap → Paging → Option (Heap × Paging)
unfolding heap_get_size map_pages move_end
heap_expand fuel new_size heap s =
    let old_size = heap_get_size heap in
    let size = align_up new_size in
    if not (ltb old_size new_size)
    then none
    else if not (leb ((heap.start + size) % 2 ^ 32) heap.max_addr)
    then none
    else (map_pages fuel heap old_size size s >>= (λ s'.
        move_end heap (minus ((heap.start + size) % 2 ^ 32) header_size)
        >>= (λ heap'. some (heap', s'))))

-- The loop of `heap_contract` over the pages to give back.
pub unmap_pages : ℕ → Heap → ℕ → ℕ → Paging → Option Paging
unmap_pages zero heap new_size i s = none
unmap_pages (suc fuel) heap new_size i s =
    let rest =
      free_frame_at (get_page s ((heap.start + i) % 2 ^ 32) false)
      >>= (λ s'. unmap_pages fuel heap new_size (minus i 0x1000) s') in
    if ltb new_size i then rest else some s

abbrev pub heap_min_size : ℕ
heap_min_size = 0x7_0000

-- The size that `heap_contract` rounds to.
abbrev pub contracted : ℕ → ℕ
contracted new_size =
    let size =
      if not (bit_and new_size 0x1000 == 0) then bit_and new_size 0x1000 + 0x1000 else new_size in
    if ltb size heap_min_size then heap_min_size else size

-- The ring of the two ends alone.
pub empty_ring : Heap → ℕ → Option Heap
empty_ring heap end_header = do
  end_name ← copy_name (heap.mem end_header).name (b'e' ∷ b'n' ∷ b'd' ∷ 0 ∷ [])
  let m1 : ℕ → Header =
      write heap.mem end_header
        (record { prev = heap.start; next = heap.start; name = end_name; size = 0 })
  let m2 : ℕ → Header =
      write m1 heap.start
        (record (m1 heap.start) { prev = end_header; next = end_header; size = 0 })
  some (record heap { mem = m2; end = end_header })

pub heap_contract : ℕ → ℕ → Heap → Paging → Option (Heap × Paging × ℕ)
unfolding heap_get_size unmap_pages empty_ring
heap_contract fuel new_size heap s =
    let old_size = heap_get_size heap in
    let size = contracted new_size in
    if not (ltb new_size old_size)
    then none
    else (unmap_pages fuel heap size (minus old_size 0x1000) s >>= (λ s'.
        empty_ring heap (minus ((heap.start + size) % 2 ^ 32) header_size)
        >>= (λ heap'. some (heap', s', size))))

-- The three changes of links in `heap_setup_block`, once the header is filled in.
abbrev pub link : (ℕ → Header) → ℕ → ℕ → ℕ → Header
link mem next_block new_header =
    let before = (mem next_block).prev in
    let m1 : ℕ → Header = write mem before (record (mem before) { next = new_header }) in
    write m1 next_block (record (m1 next_block) { prev = new_header })

pub heap_setup_block : (ℕ → Header) → ℕ → ℕ → ℕ → List ℕ → Option (ℕ → Header)
heap_setup_block mem next_block position size name =
    set_name (mem position).name name >>= (λ new_name. some (
      link
        (write mem position (record {
          prev = (mem next_block).prev;
          next = next_block;
          name = new_name;
          size = size;
        }))
        next_block position))

-- Where the hole before `current_block` begins, and how large it is.
abbrev pub position : (ℕ → Header) → ℕ → ℕ
position mem current_block =
    let before = (mem current_block).prev in (before + header_size + (mem before).size) % 2 ^ 32

abbrev pub hole : (ℕ → Header) → ℕ → ℕ
hole mem current_block = minus current_block (position mem current_block)

abbrev pub is_better : (ℕ → Header) → ℕ → ℕ → ℕ → Bool
is_better mem size current_block biggest_hole_size =
    leb ((size + header_size) % 2 ^ 32) (hole mem current_block)
    && ltb biggest_hole_size (hole mem current_block)

-- The loop of `heap_mallocn` from `current_block` on; `tmp_header` is NULL while it is `none`.
pub worst_fit : ℕ → (ℕ → Header) → ℕ → ℕ → ℕ → ℕ → Option ℕ → Option (Option ℕ)
worst_fit zero mem stop size current_block biggest_hole_size tmp_header = none
worst_fit (suc fuel) mem stop size current_block biggest_hole_size tmp_header =
    let better = is_better mem size current_block biggest_hole_size in
    let rest =
      worst_fit fuel mem stop size (mem current_block).next
        (if better then hole mem current_block else biggest_hole_size)
        (if better then some current_block else tmp_header) in
    if current_block == stop then some tmp_header else rest

-- A hole has been found, and the pointer behind the new header is returned.
pub place_block : Heap → ℕ → List ℕ → ℕ → Option (Heap × ℕ)
unfolding heap_setup_block
place_block heap size name tmp_header =
    let at = position heap.mem tmp_header in
    heap_setup_block heap.mem tmp_header at size name
    >>= (λ mem. some (record heap { mem = mem }, (at + header_size) % 2 ^ 32))

abbrev pub heap_expand_step_size : ℕ
heap_expand_step_size = 1048576

-- The block goes into the hole that was found, or else the call goes on by `expand`.
abbrev pub use_hole :
    Heap
    → Paging
    → ℕ
    → List ℕ
    → Option (Heap × Paging × Option ℕ)
    → Option ℕ
    → Option (Heap × Paging × Option ℕ)
use_hole heap s size name expand none = expand
use_hole heap s size name expand (some tmp_header) =
    place_block heap size name tmp_header >>= (λ (heap', p). some (heap', s, some p))

-- No hole is large enough: the heap grows, and `retry` is the call of the function to itself.
pub grow_heap :
    ℕ
    → ℕ
    → (Heap → Paging → Option (Heap × Paging × Option ℕ))
    → Heap
    → Paging
    → Option (Heap × Paging × Option ℕ)
unfolding heap_expand
grow_heap fuel size retry heap s =
    let old_size = heap_get_size heap in
    let steps = (size / heap_expand_step_size + 1) * heap_expand_step_size in
    heap_expand fuel ((old_size + steps) % 2 ^ 32) heap s >>= (λ (heap', s').
      if ltb (heap_get_size heap') ((old_size + size) % 2 ^ 32)
      then some (heap', s', none)
      else retry heap' s')

-- `fuel` bounds the rounds of each loop, and `attempts` the calls of the function to itself. NULL is
-- the pointer `none` within the result.
pub heap_mallocn : ℕ → ℕ → ℕ → List ℕ → Heap → Paging → Option (Heap × Paging × Option ℕ)
unfolding worst_fit grow_heap
heap_mallocn zero fuel size name heap s = none
heap_mallocn (suc attempts) fuel size name heap s =
    worst_fit fuel heap.mem (heap.mem heap.end).next size (heap.mem heap.start).next 0 none
    >>= use_hole heap s size name
        (grow_heap fuel size (heap_mallocn attempts fuel size name) heap s)

-- `this` taken out of the ring, where `before` is the header that `this->prev` leads to.
abbrev pub unlink : (ℕ → Header) → ℕ → ℕ → ℕ → Header
unlink mem before this =
    let m1 : ℕ → Header = write mem before (record (mem before) { next = (mem this).next }) in
    write m1 (m1 this).next (record (m1 (m1 this).next) { prev = (m1 this).prev })

-- An address that is no block's is reported and left alone.
abbrev pub free_header : (ℕ → Header) → ℕ → ℕ → Header
free_header mem this =
    if (mem (mem this).prev).next == this then unlink mem (mem this).prev this else mem

pub heap_free : (ℕ → Header) → ℕ → ℕ → Header
heap_free mem start = free_header mem (minus start header_size)
