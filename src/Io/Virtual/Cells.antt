-- ===== src/Io/Virtual/Cells.antt =====
-- What the operations on a virtual monitor keep, and the writes into its memory.
use potatoes.Prelude.{
  ℕ, zero, suc, ◌+◌, ◌%◌, ◌≤◌, ◌<◌, ◌≡◌, refl, ap, ◌∙◌, Option, some, ◌>>=◌, true, ltb, arith,
  length, set, length-set,
}
use potatoes.Io.Virtual.{VirtMonitor, virtual_monitor_size, store, blank}

-- The memory has the size that `new_virt_monitor` asks for, the pane begins with a line, at most at
-- the end of the memory, and the cursor is on the pane.
pub record IsMonitor (limit : ℕ) (vm : VirtMonitor) : Type 0 where
  pub cells : length vm.cells ≡ 80000
  pub size : vm.size ≡ virtual_monitor_size
  pub vis_begin : vm.vis_begin ≤ 80000
  pub line : vm.vis_begin % 80 ≡ 0
  pub offset : vm.offset < limit

-- No fault, and the monitor that comes out is one again.
abbrev pub Works : ℕ → Option VirtMonitor → Type 0
Works limit r = (vm : VirtMonitor) × (r ≡ some vm) × IsMonitor limit vm

pub Works-bind :
    (limit limit' : ℕ) (r : Option VirtMonitor) (f : VirtMonitor → Option VirtMonitor)
    → Works limit r
    → ((vm : VirtMonitor) → IsMonitor limit vm → Works limit' (f vm))
    → Works limit' (r >>= f)
Works-bind limit limit' r f (vm, e, v) k =
    let (vm', e', v') = k vm v in (vm', ap (λ o. o >>= f) e ∙ e', v')

inside : (i n : ℕ) → n ≡ 80000 → i < 80000 → ltb i n ≡ true
inside i n e l = ground (arith, e, l)

pub store-Works :
    (limit : ℕ) (vm : VirtMonitor) (i value : ℕ)
    → IsMonitor limit vm
    → i < 80000
    → Works limit (store vm i value)
unfolding store
store-Works limit vm i value v l = rw (inside i (length vm.cells) v.cells l) (
  record vm { cells = set vm.cells i value },
  refl,
  record {
    cells = length-set {0} vm.cells i value ∙ v.cells;
    size = v.size;
    vis_begin = v.vis_begin;
    line = v.line;
    offset = v.offset;
  },
)

pub blank-Works :
    (limit n i : ℕ) (vm : VirtMonitor)
    → IsMonitor limit vm
    → i + n ≤ 80000
    → Works limit (blank n i vm)
unfolding blank
blank-Works limit zero i vm v l = (vm, refl, v)
blank-Works limit (suc n) i vm v l =
    Works-bind limit limit (store vm i 0xf00) (blank n (suc i))
      (store-Works limit vm i 0xf00 v (omega (arith, l)))
      (λ vm' v'. blank-Works limit n (suc i) vm' v' (omega (arith, l)))
