-- ===== src/Mm/Paging/Kmalloc.antt =====
-- `kmalloc` and `get_page`.
use potatoes.Prelude.{
  ℕ, ◌+◌, ◌*◌, ◌/◌, ◌%◌, ◌^◌, ◌≤◌, ◌<◌, ◌≡◌, ◌≢◌, refl, ap, ◌∙◌, Bool, true, false, none, some,
  ◌==◌, if◌then◌else◌, arith, bit_and, eq→==, ne→==,
}
use potatoes.Prelude.Bits.{halve, double, bit_and-double, bit_and-ones}
use potatoes.Mm.Paging.{Paging, zero_page, kmalloc, get_page, add_table}

-- The mask of a page's address.
bit_and-page : (a : ℕ) → a < 2 ^ 32 → bit_and a 0xffff_f000 ≡ a / 0x1000 * 0x1000
bit_and-page a h =
    let low = bit_and-double 12 a 0xf_ffff in
    let high = bit_and-ones 20 (halve 12 a) (omega arith) in
    low ∙ (ap (double 12) high ∙ omega arith)

-- Where the memory suffices, `kmalloc` returns the first address from `placement_addr` on that is
-- aligned as asked, and moves `placement_addr` behind the block: blocks do not overlap.
pub kmalloc_lem :
    (placement_addr size : ℕ) (page_aligned : Bool)
    → placement_addr + 0xfff + size < 2 ^ 32
    → let (at, placement') = kmalloc placement_addr size page_aligned in
      (placement_addr ≤ at)
      × (placement' ≡ at + size)
      × (page_aligned ≡ true → (at % 0x1000 ≡ 0) × (at < placement_addr + 0x1000))
      × (page_aligned ≡ false → at ≡ placement_addr)
unfolding kmalloc
kmalloc_lem placement_addr size page_aligned room =
    let mask = bit_and-page placement_addr (omega arith) in ground (arith, mask)

get_page-old :
    (s : Paging) (address : ℕ) (make : Bool)
    → s.tables (address / 0x1000 / 1024) ≢ 0
    → get_page s address make ≡ (s, some (address / 0x1000))
unfolding get_page
get_page-old s address make h = rw (ne→== (s.tables (address / 0x1000 / 1024)) 0 h) refl

get_page-none :
    (s : Paging) (address : ℕ)
    → s.tables (address / 0x1000 / 1024) ≡ 0
    → get_page s address false ≡ (s, none)
unfolding get_page
get_page-none s address h = rw (eq→== (s.tables (address / 0x1000 / 1024)) 0 h) refl

get_page-new :
    (s : Paging) (address : ℕ)
    → s.tables (address / 0x1000 / 1024) ≡ 0
    → get_page s address true ≡ (
      add_table s (address / 0x1000 / 1024) (kmalloc s.placement_addr 0x1000 true),
      some (address / 0x1000),
    )
unfolding get_page
get_page-new s address h = rw (eq→== (s.tables (address / 0x1000 / 1024)) 0 h) refl

-- A page whose table exists is found, and nothing changes. A page without a table is not found where
-- none is to be made; else a table is made at a page boundary from `placement_addr` on, with all its
-- pages cleared and all others as they were, and the page is found again by a second call.
pub get_page_lem :
    (s : Paging) (address : ℕ)
    → 0 < s.placement_addr
    → s.placement_addr + 0x1fff < 2 ^ 32
    → let page = address / 0x1000 in
      (s.tables (page / 1024) ≢ 0 → (make : Bool) → get_page s address make ≡ (s, some page))
      × (s.tables (page / 1024) ≡ 0 → get_page s address false ≡ (s, none))
      × (s.tables (page / 1024) ≡ 0
          → (s' : Paging) × (get_page s address true ≡ (s', some page))
            × ((make : Bool) → get_page s' address make ≡ (s', some page))
            × (s'.tables (page / 1024) % 0x1000 ≡ 0)
            × (s.placement_addr ≤ s'.tables (page / 1024))
            × (s'.placement_addr ≡ s'.tables (page / 1024) + 0x1000)
            × ((n : ℕ) → s'.pages n ≡ (if n / 1024 == page / 1024 then zero_page else s.pages n)))
get_page_lem s address some_kernel room = (
  λ h make. get_page-old s address make h,
  λ h. get_page-none s address h,
  λ h.
      let (above, next, (aligned, near), plain) = made in
      let new = kmalloc s.placement_addr 0x1000 true in
      let s' : Paging = add_table s (address / 0x1000 / 1024) new in
      let here : s'.tables (address / 0x1000 / 1024) ≡ new.0 = ground arith in
      (
        s',
        get_page-new s address h,
        λ make. get_page-old s' address make (λ e. absurd (omega (arith, e, here, above))),
        omega (arith, here, aligned),
        omega (arith, here, above),
        next ∙ omega (arith, here),
        λ n. refl,
      ),
)
  where
    made :
        (s.placement_addr ≤ (kmalloc s.placement_addr 0x1000 true).0)
        × ((kmalloc s.placement_addr 0x1000 true).1
            ≡ (kmalloc s.placement_addr 0x1000 true).0 + 0x1000)
        × (((kmalloc s.placement_addr 0x1000 true).0 % 0x1000 ≡ 0)
            × ((kmalloc s.placement_addr 0x1000 true).0 < s.placement_addr + 0x1000))
        × Unit {0}
    made =
        let (above, next, aligned, plain) =
          kmalloc_lem s.placement_addr 0x1000 true (omega arith) in
        (above, next, aligned refl, tt)
