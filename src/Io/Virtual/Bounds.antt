-- ===== src/Io/Virtual/Bounds.antt =====
-- Output on a virtual monitor stays within its memory.
use potatoes.Prelude.{
  ℕ, zero, suc, ◌+◌, ◌-◌, ◌/◌, ◌%◌, ◌≤◌, ◌<◌, ◌≡◌, refl, ap, Option, some, ◌>>=◌, ◌==◌, leb,
  if◌then◌else◌, arith, Bool-cases, inl, inr,
}
use potatoes.Io.Virtual.{
  VirtMonitor, line_width, store, next_line, make_room, cell, put_default, put_back, put_spaces,
  put_char, virt_monitor_cputc,
}
use potatoes.Io.Virtual.Cells.{IsMonitor, Works, Works-bind, store-Works, blank-Works}

next_line-Works :
    (vm : VirtMonitor) → IsMonitor 1920 vm → 1919 ≤ vm.offset → Works 1919 (next_line vm)
unfolding next_line
next_line-Works vm v l =
    blank-Works 1919 line_width _ _
      (record {
        cells = v.cells;
        size = v.size;
        vis_begin = ground (arith, v.vis_begin, v.size, v.line);
        line = ground (arith, v.vis_begin, v.size, v.line);
        offset = omega (arith, v.offset);
      })
      (ground (arith, v.vis_begin, v.size, v.line))

-- The same monitor with a cursor before another limit.
moved :
    (limit limit' : ℕ) (vm : VirtMonitor) (offset : ℕ)
    → IsMonitor limit vm
    → offset < limit'
    → IsMonitor limit' (record vm { offset = offset })
moved limit limit' vm offset v l = record {
  cells = v.cells;
  size = v.size;
  vis_begin = v.vis_begin;
  line = v.line;
  offset = l;
}

make_room-Works : (vm : VirtMonitor) → IsMonitor 1920 vm → Works 1919 (make_room vm)
unfolding make_room
make_room-Works vm v = elim (Bool-cases (leb 1919 vm.offset)) [
  | inl full ↦ rw full (next_line-Works vm v (ground (arith, full)))
  | inr room ↦ rw room (vm, refl, moved 1920 1919 vm vm.offset v (ground (arith, room)))
]

put_default-Works :
    (ch fg bg : ℕ) (vm : VirtMonitor) → IsMonitor 1919 vm → Works 1920 (put_default ch fg bg vm)
unfolding put_default
put_default-Works ch fg bg vm v =
    Works-bind 1919 1920 (store vm ((vm.vis_begin + vm.offset) % (vm.size / 2)) (cell ch fg bg))
      (λ vm'. some (record vm' { offset = suc vm'.offset }))
      (store-Works 1919 vm _ (cell ch fg bg) v (ground (arith, v.size)))
      (λ vm' v'. (
        record vm' { offset = suc vm'.offset },
        refl,
        moved 1919 1920 vm' (suc vm'.offset) v' (omega (arith, v'.offset)),
      ))

put_back-Works : (fg bg : ℕ) (vm : VirtMonitor) → IsMonitor 1919 vm → Works 1920 (put_back fg bg vm)
unfolding put_back
put_back-Works fg bg vm v = elim (Bool-cases (vm.offset == 0)) [
  | inl first ↦
      rw (ap (λ b. if b then some vm else back) first)
        (vm, refl, moved 1919 1920 vm vm.offset v (omega (arith, v.offset)))
  | inr other ↦ rw (ap (λ b. if b then some vm else back) other) (
      store-Works 1920 (record vm { offset = vm.offset - 1 }) _ (cell 32 fg bg)
        (moved 1919 1920 vm (vm.offset - 1) v (omega (arith, v.offset))) (ground (arith, v.size)))
]
  where
    back : Option VirtMonitor
    back =
        store (record vm { offset = vm.offset - 1 })
          ((vm.vis_begin + (vm.offset - 1)) % (vm.size / 2)) (cell 32 fg bg)

put_spaces-Works :
    (n fg bg : ℕ) (vm : VirtMonitor) → IsMonitor 1920 vm → Works 1920 (put_spaces n fg bg vm)
unfolding put_spaces
put_spaces-Works zero fg bg vm v = (vm, refl, v)
put_spaces-Works (suc n) fg bg vm v =
    Works-bind 1920 1920 (make_room vm >>= put_default 32 fg bg) (put_spaces n fg bg)
      (Works-bind 1919 1920 (make_room vm) (put_default 32 fg bg) (make_room-Works vm v)
        (put_default-Works 32 fg bg))
      (put_spaces-Works n fg bg)

put_char-Works :
    (ch fg bg : ℕ) (vm : VirtMonitor) → IsMonitor 1919 vm → Works 1920 (put_char ch fg bg vm)
unfolding put_char
put_char-Works ch fg bg vm v =
    let w = moved 1919 1920 vm vm.offset v (omega (arith, v.offset)) in
    elim (Bool-cases (ch == 10)) [
      | inl a ↦ rw a (put_spaces-Works (line_width - vm.offset % line_width) fg bg vm w)
      | inr a ↦ rw a (elim (Bool-cases (ch == 9)) [
        | inl b ↦ rw b (put_spaces-Works (8 - vm.offset % 8) fg bg vm w)
        | inr b ↦ rw b (elim (Bool-cases (ch == 8)) [
          | inl c ↦ rw c (put_back-Works fg bg vm v)
          | inr c ↦ rw c (put_default-Works ch fg bg vm v)
        ])
      ])
    ]

-- `virt_monitor_cputc` of any character, line feed, tabulator and backspace included, does not
-- write outside the memory of the monitor, and leaves the pane at the start of a line and the
-- cursor on the pane.
pub virt_monitor_cputc-IsMonitor :
    (vm : VirtMonitor) (ch fg bg : ℕ)
    → IsMonitor 1920 vm
    → (vm' : VirtMonitor) × (virt_monitor_cputc vm ch fg bg ≡ some vm') × IsMonitor 1920 vm'
unfolding virt_monitor_cputc
virt_monitor_cputc-IsMonitor vm ch fg bg v =
    Works-bind 1919 1920 (make_room vm) (put_char ch fg bg) (make_room-Works vm v)
      (put_char-Works ch fg bg)
