-- ===== src/Io/Monitors.antt =====
-- The array of virtual monitors of src/kernel/io/io_virtual_monitors.c, with the release of one from
-- io_virtual.c. `active_monitor` and `maxvmonitor` are `uint16` and start at -1. A pointer into the
-- array is its index. What the functions do to the processes is in their results: the number of the
-- process that is to get the focus, and the requests of `free_virt_monitor`, which Pm/Procs.antt
-- carries out, with the fault where there is no such process.
pub mod Switch
pub mod Release
mod Tests
use potatoes.Prelude.{
  ℕ, suc, ◌+◌, ◌-◌, ◌%◌, ◌^◌, Bool, false, not, ◌&&◌, Option, none, some, List, [], ◌∷◌, ◌++◌, ◌==◌,
  ltb, if◌then◌else◌, ◌>>=◌, get_elem?, set, store, length, take, drop,
}
use potatoes.Klib.Memory.{memset, memcpy, from_address}
use potatoes.Klib.Strings.{strlen}
use potatoes.Io.Virtual.{VirtMonitor, new_virt_monitor}

-- An entry with the memory at `name`.
pub record Entry : Type 0 where
  pub vm : VirtMonitor
  pub name : List ℕ

pub record Monitors : Type 0 where
  pub vmonitors : List Entry
  pub active_monitor : ℕ
  pub maxvmonitor : ℕ

-- `pm_set_focus_proc(vmonitors[active_monitor].pid)`: the number that goes to it.
pub focus : Monitors → Option (Monitors × ℕ)
focus s = get_elem? s.vmonitors s.active_monitor >>= (λ e. some (s, e.vm.pid))

pub switch_monitor_up : Monitors → Option (Monitors × ℕ)
unfolding focus
switch_monitor_up s =
    let active_monitor =
      if ltb s.active_monitor s.maxvmonitor
      then (s.active_monitor + 1) % 2 ^ 16
      else if s.active_monitor == s.maxvmonitor
      then 0
      else s.active_monitor in
    focus (record s { active_monitor = active_monitor })

pub switch_monitor_down : Monitors → Option (Monitors × ℕ)
unfolding focus
switch_monitor_down s =
    let active_monitor =
      if ltb 0 s.active_monitor
      then s.active_monitor - 1
      else if s.active_monitor == 0
      then s.maxvmonitor
      else s.active_monitor in
    focus (record s { active_monitor = active_monitor })

-- The title in the 81 bytes that `mallocn` gave.
pub write_name : List ℕ → List ℕ → Option (List ℕ)
write_name old name = do
  n ← strlen name
  a ← memset old 61 80
  b ← from_address a 2 (λ dest. memcpy dest name n)
  c ← store b 1 32
  d ← store c (1 + n + 1) 32
  e ← store d 54 32
  store e 78 32

-- `mon` and `old_name` are what the two allocations give. The index of the new monitor comes back.
pub start_vmonitor : Monitors → List ℕ → List ℕ → List ℕ → ℕ → Option (Monitors × ℕ)
unfolding write_name
start_vmonitor s mon old_name name pid = do
  let at : ℕ = (s.maxvmonitor + 1) % 2 ^ 16
  vm ← new_virt_monitor mon pid
  title ← write_name old_name name
  vmonitors ← store s.vmonitors at (record { vm = vm; name = title })
  some (record s { vmonitors = vmonitors; active_monitor = at; maxvmonitor = at }, at)

-- What `free_virt_monitor` asks of the process management: `pm_set_focus_proc(pid)`, and
-- `pm_get_proc(pid)->vmonitor = vm`, which faults where `pm_get_proc` returns NULL.
pub data Request : Type 0 where
  set_focus : ℕ → Request
  set_vmonitor : ℕ → ℕ → Request

-- An entry of zeros.
pub zero_entry : Entry
zero_entry = record {
  vm = record {
    cells = [];
    size = 0;
    vis_begin = 0;
    offset = 0;
    scrolldown_limit = 0;
    scrollup_limit = 0;
    disable_refresh = false;
    pid = 0;
  };
  name = [];
}

-- The last entry goes.
pub drop_last : Monitors → List Request → Option (Monitors × List Request)
unfolding zero_entry
drop_last s requests = store s.vmonitors s.maxvmonitor zero_entry >>= (λ vmonitors. some (
  record s { vmonitors = vmonitors; maxvmonitor = (s.maxvmonitor + (2 ^ 16 - 1)) % 2 ^ 16 },
  requests,
))

-- The monitor is the last one.
pub free_last : Monitors → Option (Monitors × List Request)
unfolding drop_last
free_last s =
    let active = (s.active_monitor + (2 ^ 16 - 1)) % 2 ^ 16 in
    if s.active_monitor == s.maxvmonitor
    then (get_elem? s.vmonitors active
        >>= (λ e. drop_last (record s { active_monitor = active }) (set_focus e.vm.pid ∷ [])))
    else drop_last s []

-- The last monitor takes the place of the monitor `i`.
pub free_other : Monitors → ℕ → Option (Monitors × List Request)
unfolding drop_last
free_other s i = do
  last ← get_elem? s.vmonitors s.maxvmonitor
  vmonitors ← store s.vmonitors i last
  drop_last
      (record s {
        vmonitors = vmonitors;
        active_monitor = if s.active_monitor == s.maxvmonitor then i else s.active_monitor;
      })
      (set_vmonitor last.vm.pid i
        ∷ (if not (s.active_monitor == s.maxvmonitor) && s.active_monitor == i
            then set_focus last.vm.pid ∷ []
            else []))

unfoldable pub free_virt_monitor : Monitors → ℕ → Option (Monitors × List Request)
unfolding free_last free_other
free_virt_monitor s i = if i == s.maxvmonitor then free_last s else free_other s i
