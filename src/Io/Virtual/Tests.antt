-- ===== src/Io/Virtual/Tests.antt =====
-- Runs on a new monitor and on one with the pane at the start of the memory.
use potatoes.Prelude.{ℕ, ◌≡◌, refl, false, some, replicate, length-replicate, arith}
use potatoes.Io.Virtual.{
  VirtMonitor, virt_monitor_cputc, virt_monitor_scrollup, virt_monitor_scrolldown,
}
use potatoes.Io.Virtual.Cells.{IsMonitor}
use potatoes.Io.Virtual.Bounds.{virt_monitor_cputc-IsMonitor}
use potatoes.Io.Virtual.Scroll.{scrolldown-scrollup}

-- The cursor is on the last cell of the pane, and lines above were printed.
abbrev monitor : VirtMonitor
monitor = record {
  cells = replicate 80000 0xf00;
  size = 160000;
  vis_begin = 0;
  offset = 1919;
  scrolldown_limit = 0;
  scrollup_limit = 5;
  disable_refresh = false;
  pid = 1;
}

monitor-IsMonitor : IsMonitor 1920 monitor
monitor-IsMonitor = record {
  cells = length-replicate {0} {A = ℕ} 80000 0xf00;
  size = refl;
  vis_begin = omega arith;
  line = refl;
  offset = omega arith;
}

virt_monitor_cputc-IsMonitor_example :
    (vm : VirtMonitor) × (virt_monitor_cputc monitor 10 15 0 ≡ some vm) × IsMonitor 1920 vm
virt_monitor_cputc-IsMonitor_example =
    virt_monitor_cputc-IsMonitor monitor 10 15 0 monitor-IsMonitor

scrolldown-scrollup_example :
    virt_monitor_scrolldown (virt_monitor_scrollup monitor) ≡ record monitor { vis_begin = 80000 }
scrolldown-scrollup_example = scrolldown-scrollup monitor monitor-IsMonitor (λ e. omega (arith, e))
