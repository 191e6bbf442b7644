-- ===== src/Io/Monitors/Tests.antt =====
-- Three monitors, of which the last is active.
use potatoes.Prelude.{ℕ, ◌≡◌, some, [], ◌∷◌, arith}
use potatoes.Io.Monitors.{Entry, Monitors, zero_entry, switch_monitor_up, switch_monitor_down}
use potatoes.Io.Monitors.Switch.{IsMonitors, Focused, switch_monitor_down-switch_monitor_up}

abbrev titled : ℕ → Entry
titled c = record { vm = zero_entry.vm; name = c ∷ [] }

abbrev three_monitors : Monitors
three_monitors = record {
  vmonitors = titled 65 ∷ titled 66 ∷ titled 67 ∷ titled 0 ∷ [];
  active_monitor = 2;
  maxvmonitor = 2;
}

three_monitors-IsMonitors : IsMonitors three_monitors
three_monitors-IsMonitors = record { active = omega arith; room = omega arith; small = omega arith }

switch_monitor_down-switch_monitor_up_example :
    (s' : Monitors) × (pid : ℕ) × (pid' : ℕ) × (switch_monitor_up three_monitors ≡ some (s', pid))
    × (s'.active_monitor ≡ 0)
    × (s'.vmonitors ≡ three_monitors.vmonitors)
    × Focused s' pid
    × (switch_monitor_down s' ≡ some (three_monitors, pid'))
    × Focused three_monitors pid'
switch_monitor_down-switch_monitor_up_example =
    switch_monitor_down-switch_monitor_up three_monitors three_monitors-IsMonitors
