-- ===== src/Io/Virtual/Scroll.antt =====
-- Scrolling and the cursor.
use potatoes.Prelude.{
  ℕ, suc, ◌+◌, ◌-◌, ◌/◌, ◌%◌, ◌≤◌, ◌≡◌, ◌≢◌, refl, ap, ap₂, ◌∙◌, Bool-cases, inl, inr, List, ◌==◌,
  ltb, if◌then◌else◌, arith, length, some, ne→==,
}
use potatoes.Io.Virtual.{
  VirtMonitor, vmonitor_height, new_virt_monitor, virt_cursor_move, virt_monitor_scrollup,
  virt_monitor_scrolldown,
}
use potatoes.Io.Virtual.Cells.{IsMonitor, blank-Works}

-- `new_virt_monitor` writes only into the memory of VIRTUAL_MONITOR_SIZE bytes that it got, and the
-- monitor has the cursor and the pane at the start.
pub new_virt_monitor-IsMonitor :
    (cells : List ℕ) (pid : ℕ)
    → length cells ≡ 80000
    → (vm : VirtMonitor) × (new_virt_monitor cells pid ≡ some vm) × IsMonitor 1920 vm
unfolding new_virt_monitor
new_virt_monitor-IsMonitor cells pid e =
    blank-Works 1920 vmonitor_height 0 _
      (record {
        cells = e;
        size = refl;
        vis_begin = omega arith;
        line = refl;
        offset = omega arith;
      })
      (omega arith)

module _ (vm : VirtMonitor) (v : IsMonitor 1920 vm) where
  scrollup-IsMonitor : IsMonitor 1920 (virt_monitor_scrollup vm)
  unfolding virt_monitor_scrollup
  scrollup-IsMonitor = elim (Bool-cases (vm.scrollup_limit == 0)) [
    | inl none_left ↦ rw none_left v
    | inr some_left ↦ rw some_left (record {
      cells = v.cells;
      size = v.size;
      vis_begin = ground (arith, v.vis_begin, v.size);
      line = ground (arith, v.line, v.vis_begin, v.size);
      offset = v.offset;
    })
  ]

  scrolldown-IsMonitor : IsMonitor 1920 (virt_monitor_scrolldown vm)
  unfolding virt_monitor_scrolldown
  scrolldown-IsMonitor = elim (Bool-cases (vm.scrolldown_limit == 0)) [
    | inl none_left ↦ rw none_left v
    | inr some_left ↦ rw some_left (record {
      cells = v.cells;
      size = v.size;
      vis_begin = ground (arith, v.vis_begin, v.size, v.line);
      line = ground (arith, v.line, v.vis_begin, v.size);
      offset = v.offset;
    })
  ]

  cursor_move-IsMonitor : (dir : ℕ) → IsMonitor 1920 (virt_cursor_move vm dir)
  unfolding virt_cursor_move
  cursor_move-IsMonitor dir = elim (Bool-cases vm.disable_refresh) [
    | inl off ↦ rw off (record {
      cells = v.cells;
      size = v.size;
      vis_begin = v.vis_begin;
      line = v.line;
      offset = v.offset;
    })
    | inr on ↦ rw on (record {
      cells = v.cells;
      size = v.size;
      vis_begin = v.vis_begin;
      line = v.line;
      offset = ground (arith, v.offset);
    })
  ]

-- Scrolling and the movements of the cursor keep a monitor well formed: the pane begins with a line,
-- at most at the end of the memory, and the cursor stays on the pane.
pub moves-IsMonitor :
    (vm : VirtMonitor) (dir : ℕ)
    → IsMonitor 1920 vm
    → IsMonitor 1920 (virt_monitor_scrollup vm)
      × IsMonitor 1920 (virt_monitor_scrolldown vm)
      × IsMonitor 1920 (virt_cursor_move vm dir)
moves-IsMonitor vm dir v =
    (scrollup-IsMonitor vm v, scrolldown-IsMonitor vm v, cursor_move-IsMonitor vm v dir)

pane_back :
    (vis size : ℕ)
    → size ≡ 160000
    → vis ≤ 80000
    → vis % 80 ≡ 0
    → (let up = if ltb 0 vis then vis - 80 else size / 2 - 80 in
        if ltb up (size / 2) then up + 80 else 0)
      ≡ (if vis == 0 then 80000 else vis)
pane_back vis size e l m = ground (arith, e, l, m)

-- A step up and a step down take the monitor back to where it was, except that a pane at the start
-- of the memory ends up behind the last line of the memory, at index 80000.
pub scrolldown-scrollup :
    (vm : VirtMonitor)
    → IsMonitor 1920 vm
    → vm.scrollup_limit ≢ 0
    → virt_monitor_scrolldown (virt_monitor_scrollup vm)
      ≡ record vm { vis_begin = if vm.vis_begin == 0 then 80000 else vm.vis_begin }
unfolding virt_monitor_scrollup virt_monitor_scrolldown
scrolldown-scrollup vm v n =
    rw (ne→== vm.scrollup_limit 0 n, ne→== (suc vm.scrolldown_limit) 0 (λ e. omega (arith, e)))
      (ap₂
          (λ vis up. record vm {
            vis_begin = vis;
            scrolldown_limit = suc vm.scrolldown_limit - 1;
            scrollup_limit = up;
          })
          (pane_back vm.vis_begin vm.size v.size v.vis_begin v.line) (omega (arith, n))
        ∙ ap
            (λ down. record vm {
              vis_begin = if vm.vis_begin == 0 then 80000 else vm.vis_begin;
              scrolldown_limit = down;
            })
            (omega arith))
