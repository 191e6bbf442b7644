-- ===== src/Io/Monitors/Switch.antt =====
-- Switching between monitors, and the release of one.
use potatoes.Prelude.{
  ℕ, ◌+◌, ◌-◌, ◌%◌, ◌^◌, ◌<◌, ◌≤◌, ◌≡◌, refl, ap, ◌∙◌, some, List, ◌==◌, ltb, if◌then◌else◌, ◌>>=◌,
  get_elem?, length, get_or, get_elem?-eq-get_or, arith,
}
use potatoes.Io.Monitors.{
  Entry, Monitors, focus, switch_monitor_up, switch_monitor_down, zero_entry,
}

-- The array holds the monitors up to `maxvmonitor`, and the active one is among them.
pub record IsMonitors (s : Monitors) : Type 0 where
  pub active : s.active_monitor ≤ s.maxvmonitor
  pub room : s.maxvmonitor < length s.vmonitors
  pub small : s.maxvmonitor < 2 ^ 16 - 1

pub entry_at : (xs : List Entry) (i : ℕ) → i < length xs → (e : Entry) × (get_elem? xs i ≡ some e)
entry_at xs i l = (get_or xs i zero_entry, get_elem?-eq-get_or xs i zero_entry l)

focus-pid :
    (s : Monitors) (e : Entry)
    → get_elem? s.vmonitors s.active_monitor ≡ some e
    → focus s ≡ some (s, e.vm.pid)
unfolding focus
focus-pid s e h = ap (λ r. r >>= (λ x. some (s, x.vm.pid))) h

-- The index after `switch_monitor_up` and after `switch_monitor_down`.
abbrev above : ℕ → ℕ → ℕ
above active maximum =
    if ltb active maximum then (active + 1) % 2 ^ 16 else if active == maximum then 0 else active

abbrev below : ℕ → ℕ → ℕ
below active maximum = if ltb 0 active then active - 1 else if active == 0 then maximum else active

above-le : (a m : ℕ) → a ≤ m → m < 2 ^ 16 - 1 → above a m ≤ m
above-le a m l k = ground (arith, l, k)

below-above : (a m : ℕ) → a ≤ m → m < 2 ^ 16 - 1 → below (above a m) m ≡ a
below-above a m l k = ground (arith, l, k)

-- `pid` is the number of the process to which the active monitor of the array belongs.
abbrev pub Focused : Monitors → ℕ → Type 0
Focused s pid = (e : Entry) × (get_elem? s.vmonitors s.active_monitor ≡ some e) × (pid ≡ e.vm.pid)

above-next : (a m : ℕ) → a ≤ m → m < 2 ^ 16 - 1 → above a m ≡ (if a == m then 0 else a + 1)
above-next a m l k = ground (arith, l, k)

-- `switch_monitor_up` makes the next monitor of the array the active one, around the end of the
-- array, and asks for the focus of the process to which this monitor belongs.
-- `switch_monitor_down` then goes back to the monitor that was active, and asks for the focus of the
-- process of that one.
pub switch_monitor_down-switch_monitor_up :
    (s : Monitors)
    → IsMonitors s
    → (s' : Monitors) × (pid : ℕ) × (pid' : ℕ) × (switch_monitor_up s ≡ some (s', pid))
      × (s'.active_monitor
          ≡ (if s.active_monitor == s.maxvmonitor then 0 else s.active_monitor + 1))
      × (s'.vmonitors ≡ s.vmonitors)
      × Focused s' pid
      × (switch_monitor_down s' ≡ some (s, pid'))
      × Focused s pid'
unfolding switch_monitor_up switch_monitor_down
switch_monitor_down-switch_monitor_up s v =
    let i = above s.active_monitor s.maxvmonitor in
    let l = above-le s.active_monitor s.maxvmonitor v.active v.small in
    let (e, h) = entry_at s.vmonitors i (omega (arith, l, v.room)) in
    let (e', h') = entry_at s.vmonitors s.active_monitor (omega (arith, v.active, v.room)) in
    (
      record s { active_monitor = i },
      e.vm.pid,
      e'.vm.pid,
      focus-pid (record s { active_monitor = i }) e h,
      above-next s.active_monitor s.maxvmonitor v.active v.small,
      refl,
      (e, h, refl),
      ap (λ a. focus (record s { active_monitor = a }))
            (below-above s.active_monitor s.maxvmonitor v.active v.small)
          ∙ focus-pid s e' h',
      (e', h', refl),
    )
