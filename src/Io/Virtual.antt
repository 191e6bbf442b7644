-- ===== src/Io/Virtual.antt =====
-- The virtual monitors of src/kernel/io/io_virtual.c. `cells` is the memory of a monitor, 16-bit
-- words from `begin` on, and `vis_begin` is an index into it. A write outside it is a fault, `none`.
pub mod Cells
pub mod Scroll
pub mod Bounds
mod Tests
use potatoes.Prelude.{
  ℕ, zero, suc, ◌+◌, ◌-◌, ◌*◌, ◌/◌, ◌%◌, ◌^◌, Bool, true, false, not, Option, none, some, List, [],
  ◌∷◌, ◌++◌, ◌==◌, ltb, leb, if◌then◌else◌, ◌>>=◌, length, take, drop, set, get_elem?,
}
use potatoes.Prelude.Int.{ℤ, pos, eq_ℤ}
use potatoes.Klib.Strings.{strcmp}

abbrev pub virtual_monitor_size : ℕ
virtual_monitor_size = 160000

abbrev pub line_width : ℕ
line_width = 80

abbrev pub vmonitor_height : ℕ
vmonitor_height = 0xf00

pub record VirtMonitor : Type 0 where
  pub cells : List ℕ
  pub size : ℕ
  pub vis_begin : ℕ
  pub offset : ℕ
  pub scrolldown_limit : ℕ
  pub scrollup_limit : ℕ
  pub disable_refresh : Bool
  pub pid : ℕ

pub store : VirtMonitor → ℕ → ℕ → Option VirtMonitor
store vm i value =
    if ltb i (length vm.cells) then some (record vm { cells = set vm.cells i value }) else none

-- The loops that write 0xF00, with the rounds left.
pub blank : ℕ → ℕ → VirtMonitor → Option VirtMonitor
unfolding store
blank zero i vm = some vm
blank (suc n) i vm = store vm i 0xf00 >>= blank n (suc i)

-- `cells` is what `mallocn` gave.
pub new_virt_monitor : List ℕ → ℕ → Option VirtMonitor
unfolding blank
new_virt_monitor cells pid = blank vmonitor_height 0 (record {
  cells = cells;
  size = virtual_monitor_size;
  vis_begin = 0;
  offset = 0;
  scrolldown_limit = 0;
  scrollup_limit = 0;
  disable_refresh = false;
  pid = pid;
})

abbrev pub scroll_limit : VirtMonitor → ℕ
scroll_limit vm = (vm.size - vmonitor_height) / 0xa0

-- The pane moves on by a line, which is blanked.
pub next_line : VirtMonitor → Option VirtMonitor
unfolding blank
next_line vm =
    let vis = vm.vis_begin + line_width in
    let vis_begin = if leb (vm.size / 2) vis then 0 else vis in
    let moved = record vm {
      scrollup_limit =
          if ltb vm.scrollup_limit (scroll_limit vm)
          then suc vm.scrollup_limit
          else vm.scrollup_limit;
      vis_begin = vis_begin;
      offset = vm.offset - line_width;
    } in
    blank line_width ((vis_begin + vmonitor_height / 2 - line_width) % (vm.size / 2)) moved

-- The test at the start of `virt_monitor_cputc`.
pub make_room : VirtMonitor → Option VirtMonitor
unfolding next_line
make_room vm = if leb (vmonitor_height / 2 - 1) vm.offset then next_line vm else some vm

abbrev pub cell : ℕ → ℕ → ℕ → ℕ
cell ch fg bg = (bg * 0x1000 + fg * 0x100 + ch % 256) % 2 ^ 16

-- The case `default` of the switch.
pub put_default : ℕ → ℕ → ℕ → VirtMonitor → Option VirtMonitor
unfolding store
put_default ch fg bg vm =
    store vm ((vm.vis_begin + vm.offset) % (vm.size / 2)) (cell ch fg bg)
    >>= (λ vm'. some (record vm' { offset = suc vm'.offset }))

-- The case of a backspace.
pub put_back : ℕ → ℕ → VirtMonitor → Option VirtMonitor
unfolding store
put_back fg bg vm =
    let back = record vm { offset = vm.offset - 1 } in
    if vm.offset == 0
    then some vm
    else store back ((back.vis_begin + back.offset) % (back.size / 2)) (cell 32 fg bg)

-- `n` calls of `virt_monitor_cputc` with a space.
pub put_spaces : ℕ → ℕ → ℕ → VirtMonitor → Option VirtMonitor
unfolding make_room put_default
put_spaces zero fg bg vm = some vm
put_spaces (suc n) fg bg vm = make_room vm >>= put_default 32 fg bg >>= put_spaces n fg bg

pub put_char : ℕ → ℕ → ℕ → VirtMonitor → Option VirtMonitor
unfolding put_default put_back put_spaces
put_char ch fg bg vm =
    if ch == 10
    then put_spaces (line_width - vm.offset % line_width) fg bg vm
    else if ch == 9
    then put_spaces (8 - vm.offset % 8) fg bg vm
    else if ch == 8
    then put_back fg bg vm
    else put_default ch fg bg vm

pub virt_monitor_cputc : VirtMonitor → ℕ → ℕ → ℕ → Option VirtMonitor
unfolding make_room put_char
virt_monitor_cputc vm ch fg bg = make_room vm >>= put_char ch fg bg

abbrev pub white : ℕ
white = 0xf

-- The tags in the order of the tests, with their colours.
abbrev pub color_tags : List (List ℕ × ℕ)
color_tags =
    (123 ∷ 66 ∷ 76 ∷ 65 ∷ 125 ∷ [], 0x0)
    ∷ (123 ∷ 66 ∷ 76 ∷ 85 ∷ 125 ∷ [], 0x1)
    ∷ (123 ∷ 71 ∷ 82 ∷ 69 ∷ 125 ∷ [], 0x2)
    ∷ (123 ∷ 67 ∷ 89 ∷ 65 ∷ 125 ∷ [], 0x3)
    ∷ (123 ∷ 82 ∷ 69 ∷ 68 ∷ 125 ∷ [], 0x4)
    ∷ (123 ∷ 86 ∷ 73 ∷ 79 ∷ 125 ∷ [], 0x5)
    ∷ (123 ∷ 79 ∷ 82 ∷ 65 ∷ 125 ∷ [], 0x6)
    ∷ (123 ∷ 68 ∷ 65 ∷ 82 ∷ 125 ∷ [], 0x8)
    ∷ (123 ∷ 76 ∷ 73 ∷ 71 ∷ 125 ∷ [], 0x7)
    ∷ (123 ∷ 76 ∷ 66 ∷ 76 ∷ 125 ∷ [], 0x9)
    ∷ (123 ∷ 76 ∷ 71 ∷ 82 ∷ 125 ∷ [], 0xa)
    ∷ (123 ∷ 84 ∷ 85 ∷ 82 ∷ 125 ∷ [], 0xb)
    ∷ (123 ∷ 80 ∷ 73 ∷ 78 ∷ 125 ∷ [], 0xc)
    ∷ (123 ∷ 77 ∷ 65 ∷ 71 ∷ 125 ∷ [], 0xd)
    ∷ (123 ∷ 89 ∷ 69 ∷ 76 ∷ 125 ∷ [], 0xe)
    ∷ []

pub first_tag : List ℕ → List (List ℕ × ℕ) → Option ℕ
first_tag buf [] = some white
first_tag buf ((tag, color) ∷ tags) =
    let rest = first_tag buf tags in
    strcmp buf (tag ++ (0 ∷ [])) >>= (λ d. if eq_ℤ d (pos 0) then some color else rest)

-- The memory from `str` on, of which `memcpy` reads five bytes.
pub get_color_tag : List ℕ → Option ℕ
unfolding first_tag
get_color_tag str =
    if ltb (length str) 5 then none else first_tag (take 5 str ++ (0 ∷ [])) color_tags

-- A `#` before `str` is read: the monitor, where to go on, and the colour.
pub read_tag : VirtMonitor → List ℕ → ℕ → ℕ → Option (VirtMonitor × List ℕ × ℕ)
unfolding get_color_tag virt_monitor_cputc
read_tag vm [] fg bg = none
read_tag vm (c ∷ str) fg bg = get_color_tag (c ∷ str) >>= (λ color.
    if not (color == white)
    then some (vm, drop 5 (c ∷ str), color)
    else if not (c == 35)
    then (virt_monitor_cputc vm 35 fg bg >>= (λ vm'. some (vm', c ∷ str, fg)))
    else some (vm, str, color))

-- A round of the loop behind the tag, and the rest of the loop.
pub put_next :
    (VirtMonitor → List ℕ → ℕ → ℕ → Option (VirtMonitor × ℕ))
    → ℕ
    → ℕ
    → VirtMonitor × List ℕ × ℕ
    → Option (VirtMonitor × ℕ)
unfolding virt_monitor_cputc
put_next loop bg res (vm, [], fg) = none
put_next loop bg res (vm, c ∷ str, fg) =
    if c == 0
    then some (vm, res)
    else (virt_monitor_cputc vm c fg bg >>= (λ vm'. loop vm' str fg (suc res)))

-- The loop of `virt_monitor_cputs`, whose `res` starts at 0.
pub virt_monitor_cputs : ℕ → ℕ → VirtMonitor → List ℕ → ℕ → ℕ → Option (VirtMonitor × ℕ)
unfolding read_tag put_next
virt_monitor_cputs zero bg vm str fg res = none
virt_monitor_cputs (suc fuel) bg vm [] fg res = none
virt_monitor_cputs (suc fuel) bg vm (c ∷ str) fg res =
    if c == 0
    then some (vm, res)
    else if c == 35
    then (read_tag vm str fg bg >>= put_next (virt_monitor_cputs fuel bg) bg res)
    else put_next (virt_monitor_cputs fuel bg) bg res (vm, c ∷ str, fg)

pub virt_cursor_move : VirtMonitor → ℕ → VirtMonitor
virt_cursor_move vm dir =
    let pane = vmonitor_height / 2 in
    let column = vm.offset % line_width in
    let line = vm.offset - column in
    let offset =
      if dir == 0
      then (vm.offset + pane - line_width) % pane
      else if dir == 1
      then (vm.offset + line_width) % pane
      else if dir == 2
      then line + (column + 80 - 1) % line_width
      else if dir == 3
      then line + (vm.offset + 1) % line_width
      else vm.offset in
    if vm.disable_refresh then vm else record vm { offset = offset }

pub virt_monitor_scrollup : VirtMonitor → VirtMonitor
virt_monitor_scrollup vm = if vm.scrollup_limit == 0 then vm else record vm {
  scrollup_limit = vm.scrollup_limit - 1;
  vis_begin = if ltb 0 vm.vis_begin then vm.vis_begin - line_width else vm.size / 2 - line_width;
  scrolldown_limit = suc vm.scrolldown_limit;
}

pub virt_monitor_scrolldown : VirtMonitor → VirtMonitor
virt_monitor_scrolldown vm = if vm.scrolldown_limit == 0 then vm else record vm {
  scrolldown_limit = vm.scrolldown_limit - 1;
  vis_begin = if ltb vm.vis_begin (vm.size / 2) then vm.vis_begin + line_width else 0;
  scrollup_limit = suc vm.scrollup_limit;
}
