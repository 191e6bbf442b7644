-- ===== src/Pm/Procs/Destroy.antt =====
-- `pm_destroy_thread` of src/kernel/pm/pm_main.c with what `free_virt_monitor` of
-- src/kernel/io/io_virtual.c does to other processes.
use potatoes.Prelude.{ℕ, ◌≤◌, ◌≡◌, ◌≢◌, ◌⊎◌, some, List, get_elem?}
use potatoes.Io.Monitors.{Entry, Monitors, Request}
use potatoes.Io.Monitors.Release.{Released, Asks}
use potatoes.Pm.Procs.{Process, Resources, get_proc}

module _ (head : ℕ) (ring : List Process) where
  -- The process that `pm_get_proc` returns for the number is at the address, which is not NULL.
  abbrev pub Owner : ℕ → ℕ → Type 0
  Owner pid address = (get_proc head ring pid ≡ some address) × (address ≢ 0)

  -- Each monitor of the array belongs to a process of the ring.
  abbrev pub Owned : Monitors → Type 0
  Owned s =
      (j : ℕ) (e : Entry)
      → j ≤ s.maxvmonitor
      → get_elem? s.vmonitors j ≡ some e
      → (address : ℕ) × Owner e.vm.pid address

  -- Where another monitor takes the place `i`, its process gets the place, and no other.
  abbrev pub Placed : Resources → ℕ → (ℕ → ℕ) → Type 0
  Placed r i vmonitor =
      ((i ≡ r.monitors.maxvmonitor) × (vmonitor ≡ r.vmonitor))
      ⊎ ((i ≢ r.monitors.maxvmonitor)
          × (last : Entry) × (address : ℕ) × (get_elem? r.monitors.vmonitors r.monitors.maxvmonitor
              ≡ some last)
          × Owner last.vm.pid address
          × (vmonitor address ≡ i)
          × ((a : ℕ) → a ≢ address → vmonitor a ≡ r.vmonitor a))

  -- Where the monitor `i` was the active one, the focus goes to the process of the monitor that is
  -- the active one now, and otherwise it stays.
  abbrev pub Passed : Resources → ℕ → Monitors → ℕ → Type 0
  Passed r i left focus =
      ((r.monitors.active_monitor ≢ i) × (focus ≡ r.focus_proc))
      ⊎ ((r.monitors.active_monitor ≡ i)
          × (e : Entry) × (get_elem? left.vmonitors left.active_monitor ≡ some e)
          × Owner e.vm.pid focus)

  module _ (r : Resources) (i : ℕ) (owned : Owned r.monitors) (left : Monitors)
      (released : Released r.monitors i left) (requests : List Request)
      (asks : Asks r.monitors i left requests) where
    abbrev freed_monitor : Resources
    freed_monitor = record r { monitors = left }
