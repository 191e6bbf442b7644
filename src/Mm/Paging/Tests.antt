-- ===== src/Mm/Paging/Tests.antt =====
-- An empty directory, with the placement address at 1 MB and a bit.
use potatoes.Prelude.{◌+◌, ◌%◌, ◌≤◌, ◌<◌, ◌≡◌, Bool, true, false, [], arith}
use potatoes.Mm.Paging.{Paging, zero_page, kmalloc}
use potatoes.Mm.Paging.Kmalloc.{kmalloc_lem}

abbrev paging : Paging
paging = record {
  placement_addr = 0x10_0100;
  tables = λ i. 0;
  tables_physical = λ i. 0;
  pages = λ n. zero_page;
  bitmap = record { words = []; nframes = 0 };
}

kmalloc_lem_example :
    let (at, placement') = kmalloc 0x10_0100 8196 true in
    (0x10_0100 ≤ at)
    × (placement' ≡ at + 8196)
    × (◌≡◌ {A = Bool} true true → (at % 0x1000 ≡ 0) × (at < 0x10_0100 + 0x1000))
    × (◌≡◌ {A = Bool} true false → at ≡ 0x10_0100)
kmalloc_lem_example = kmalloc_lem 0x10_0100 8196 true (omega arith)
