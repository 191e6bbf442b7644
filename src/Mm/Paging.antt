-- ===== src/Mm/Paging.antt =====
-- Page tables and the allocator of the start-up phase, src/kernel/mm/mm_main.c. A page of the
-- directory is named by the number of its virtual address, address / 0x1000: its table is the number
-- / 1024. A panic and a use of NULL are `none`.
pub mod Kmalloc
mod Tests
use potatoes.Prelude.{
  ℕ, zero, suc, ◌+◌, ◌-◌, ◌*◌, ◌/◌, ◌%◌, ◌^◌, Bool, true, false, not, ◌&&◌, Option, none, some,
  List, [], ◌∷◌, ◌==◌, ltb, leb, if◌then◌else◌, ◌>>=◌, bit_and, bit_or,
}
use potatoes.Mm.Frames.{Frames, Page, Outcome, done, panic, alloc_frame, free_frame}

-- `placement_addr`, the two arrays of `kernel_dir`, its pages, and the bitmap of frames. An entry 0
-- of `tables` is NULL.
pub record Paging : Type 0 where
  pub placement_addr : ℕ
  pub tables : ℕ → ℕ
  pub tables_physical : ℕ → ℕ
  pub pages : ℕ → Page
  pub bitmap : Frames

-- The address and the new `placement_addr`. What goes to `*phys` is the address.
pub kmalloc : ℕ → ℕ → Bool → ℕ × ℕ
kmalloc placement_addr size page_aligned =
    let page = bit_and placement_addr 0xffff_f000 in
    let at =
      if page_aligned && not (page == placement_addr)
      then (page + 0x1000) % 2 ^ 32
      else placement_addr in
    (at, (at + size) % 2 ^ 32)

abbrev pub zero_page : Page
zero_page = record { present = 0; rw_bit = 0; user = 0; frame = 0 }

-- The directory with a new table at `tmp`, cleared.
abbrev pub add_table : Paging → ℕ → ℕ × ℕ → Paging
add_table s table_index (tmp, placement_addr) = record s {
  placement_addr = placement_addr;
  tables = λ i. if i == table_index then tmp else s.tables i;
  tables_physical = λ i. if i == table_index then bit_or tmp 7 else s.tables_physical i;
  pages = λ n. if n / 1024 == table_index then zero_page else s.pages n;
}

pub get_page : Paging → ℕ → Bool → Paging × Option ℕ
unfolding kmalloc
get_page s address make =
    let page = address / 0x1000 in
    let table_index = page / 1024 in
    if not (s.tables table_index == 0)
    then (s, some page)
    else if make
    then (add_table s table_index (kmalloc s.placement_addr 0x1000 true), some page)
    else (s, none)

abbrev keep_outcome : Paging → ℕ → Outcome → Option Paging
keep_outcome s n panic = none
keep_outcome s n (done page bitmap) =
    some (record s { pages = λ k. if k == n then page else s.pages k; bitmap = bitmap })

-- `alloc_frame` and `free_frame` of what `get_page` returned.
pub alloc_frame_at : Bool → Bool → Paging × Option ℕ → Option Paging
alloc_frame_at kernel writeable (s, none) = none
alloc_frame_at kernel writeable (s, some n) =
    alloc_frame s.bitmap (s.pages n) kernel writeable >>= keep_outcome s n

pub free_frame_at : Paging × Option ℕ → Option Paging
free_frame_at (s, none) = none
free_frame_at (s, some n) =
    free_frame s.bitmap (s.pages n) >>= (λ (page, bitmap). keep_outcome s n (done page bitmap))

-- `bzero` of `n` bytes over little-endian words.
pub zero_bytes : ℕ → List ℕ → List ℕ
zero_bytes n [] = []
zero_bytes n (w ∷ ws) = (if leb 4 n then 0 else w - w % 256 ^ n) ∷ zero_bytes (n - 4) ws

abbrev pub kheap_start : ℕ
kheap_start = 0xc000_0000

abbrev pub kheap_initial_size : ℕ
kheap_initial_size = 0x50_0000

-- The loops of `mm_init` over the pages of the heap, with the rounds left.
pub make_pages : ℕ → ℕ → Paging → Paging
unfolding get_page
make_pages zero i s = s
make_pages (suc n) i s = make_pages n (i + 0x1000) (get_page s i true).0

pub alloc_pages : ℕ → ℕ → Paging → Option Paging
unfolding get_page alloc_frame_at
alloc_pages zero i s = some s
alloc_pages (suc n) i s =
    alloc_frame_at false false (get_page s i true) >>= (λ s'. alloc_pages n (i + 0x1000) s')

-- The loop of `mm_init` over the pages of the kernel. `placement_addr` may grow in a round.
pub alloc_kernel : ℕ → ℕ → ℕ → Paging → Option Paging
unfolding get_page alloc_frame_at
alloc_kernel zero i reserved s = none
alloc_kernel (suc fuel) i reserved s =
    let rest =
      alloc_frame_at false false (get_page s i true)
      >>= (λ s'. alloc_kernel fuel ((i + 0x1000) % 2 ^ 32) reserved s') in
    if leb i ((s.placement_addr + reserved) % 2 ^ 32) then rest else some s

-- The bitmap and the directory that `mm_init` starts with; `words` is the memory at `frames`.
pub empty_paging : ℕ → ℕ → List ℕ → Paging
unfolding kmalloc zero_bytes
empty_paging start_addr end_addr words =
    let nframes = end_addr / 0x1000 in
    let (frames, placement) = kmalloc ((start_addr + 0x100) % 2 ^ 32) (nframes / 32) false in
    let (kernel_dir, placement') = kmalloc placement 8196 true in
    record {
      placement_addr = placement';
      tables = λ i. 0;
      tables_physical = λ i. 0;
      pages = λ n. zero_page;
      bitmap = record { words = zero_bytes (nframes / 32) words; nframes = nframes };
    }

-- `mm_init` up to `switch_page_dir`.
pub mm_init : ℕ → ℕ → ℕ → List ℕ → Option Paging
unfolding empty_paging make_pages alloc_pages alloc_kernel
mm_init fuel start_addr end_addr words =
    let rounds = kheap_initial_size / 0x1000 in
    let s = make_pages rounds kheap_start (empty_paging start_addr end_addr words) in
    alloc_kernel fuel 0 (end_addr / 4096 / 1024 * 4096) s >>= alloc_pages rounds kheap_start
