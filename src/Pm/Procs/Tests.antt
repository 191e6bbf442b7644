-- ===== src/Pm/Procs/Tests.antt =====
-- Runs of the scheduler.
use potatoes.Prelude.{
  ℕ, ◌+◌, ◌-◌, ◌/◌, ◌≡◌, refl, some, [], ◌∷◌, ◌==◌, if◌then◌else◌, ◌>>=◌, arith, inl, inr,
}
use potatoes.Io.Monitors.{Entry, Monitors, zero_entry, free_virt_monitor}
use potatoes.Pm.Procs.{Process, Resources, Procs, pm_schedule, pm_get_proc}
use potatoes.Pm.Procs.Create.{Allocated, pm_create_thread}
use potatoes.Pm.Procs.Count.{IsProcs}
use potatoes.Pm.Procs.Schedule.{destroyed, scheduled, pm_schedule-Alive}
use potatoes.Pm.Procs.Schedule.Ends.{Ends, pm_schedule-IsProcs}
use potatoes.Pm.Procs.Find.{pm_create_thread-IsProcs}

abbrev monitor_of : ℕ → Entry
monitor_of pid = record { vm = record zero_entry.vm { pid = pid }; name = [] }

-- A monitor for each process, of which that of process 1 is active.
abbrev four_monitors : Monitors
four_monitors = record {
  vmonitors = monitor_of 0 ∷ monitor_of 1 ∷ monitor_of 2 ∷ monitor_of 3 ∷ monitor_of 0 ∷ [];
  active_monitor = 1;
  maxvmonitor = 3;
}

abbrev held : Resources
held = record {
  monitors = four_monitors;
  vmonitor = λ a. a / 100 - 1;
  focus_proc = 200;
  freed = [];
}

abbrev a_process : ℕ → ℕ → ℕ → Process
a_process address pid state = record {
  address = address;
  name = address + 1;
  pid = pid;
  state = state;
  context = address + 2;
  stack_start = address + 3;
  stdin = address + 4;
  pft = [];
  priority = 1;
  remaining_timeslices = 1;
}

-- The kernel runs; behind it are a dead process, one that sleeps and one that is alive.
abbrev four : Procs
four = record {
  ring = a_process 100 0 0 ∷ a_process 200 1 1 ∷ a_process 300 2 2 ∷ a_process 400 3 0 ∷ [];
  procs_head = 100;
  next_pid = 4;
  resources = held;
}

four-IsProcs : IsProcs four
four-IsProcs = record {
  pids = λ pid. ground arith;
  next = λ pid l. ground (arith, l);
  addresses = λ address. ground arith;
  null = refl;
  head = refl;
}

pm_schedule-Alive_example :
    pm_schedule 4 four 7
    ≡ destroyed 100
        (record (a_process 100 0 0) { context = 7 })
        (a_process 200 1 1 ∷ a_process 300 2 2 ∷ [])
        (a_process 400 3 0)
        []
        held
      >>= (λ r. some (
        scheduled four
            (a_process 100 0 0)
            (a_process 200 1 1 ∷ a_process 300 2 2 ∷ [])
            (a_process 400 3 0)
            []
            7
            r,
        402,
      ))
pm_schedule-Alive_example =
    pm_schedule-Alive four (a_process 100 0 0) (a_process 400 3 0)
      (a_process 200 1 1 ∷ a_process 300 2 2 ∷ []) [] 7 4 refl (omega arith)
      (inl refl, (inr refl, tt)) refl (omega arith)

-- The monitor of the dead process is released: the last one takes its place and is the active one.
abbrev three_held : Resources
three_held = record {
  monitors = record {
    vmonitors = monitor_of 0 ∷ monitor_of 3 ∷ monitor_of 2 ∷ zero_entry ∷ monitor_of 0 ∷ [];
    active_monitor = 1;
    maxvmonitor = 2;
  };
  vmonitor = λ a. if a == 400 then 1 else a / 100 - 1;
  focus_proc = 400;
  freed = 204 ∷ 201 ∷ 203 ∷ 200 ∷ [];
}

-- The dead process is gone, and what it held is freed.
abbrev three : Procs
three = record four {
  ring = a_process 400 3 0 ∷ record (a_process 100 0 0) { context = 7 } ∷ a_process 300 2 2 ∷ [];
  resources = three_held;
}

four_run : pm_schedule 4 four 7 ≡ some (three, 402)
unfolding pm_schedule free_virt_monitor
four_run = refl

four_destroys :
    destroyed 100
      (record (a_process 100 0 0) { context = 7 })
      (a_process 200 1 1 ∷ a_process 300 2 2 ∷ [])
      (a_process 400 3 0)
      []
      held
    ≡ some three_held
unfolding destroyed free_virt_monitor
four_destroys = refl

pm_schedule-IsProcs_example : Ends four 7
pm_schedule-IsProcs_example =
    pm_schedule-IsProcs four (a_process 100 0 0)
      (a_process 200 1 1 ∷ a_process 300 2 2 ∷ a_process 400 3 0 ∷ []) 7 four-IsProcs refl
      (inr (
        inl (record {
          x = a_process 400 3 0;
          waiting = a_process 200 1 1 ∷ a_process 300 2 2 ∷ [];
          behind = [];
          left = three_held;
          ring = refl;
          waits = (inl refl, (inr refl, tt));
          alive = refl;
          destroys = four_destroys;
        })))

abbrev allocated : Allocated
allocated = record {
  proc = a_process 500 9 9;
  name = 600;
  stack_start = 700;
  stdin = 800;
  vmonitor = 4;
  monitors = four_monitors;
}

pm_create_thread-IsProcs_example :
    (s' : Procs) × (memory' : ℕ → ℕ) × (pm_create_thread four (λ a. 0) allocated 1 2 100
      ≡ some (s', memory', 4))
    × IsProcs s'
    × (pm_get_proc s' 4 ≡ some 500)
    × (s'.resources.focus_proc ≡ 500)
    × (s'.resources.vmonitor 500 ≡ 4)
pm_create_thread-IsProcs_example =
    pm_create_thread-IsProcs four (λ a. 0) allocated 1 2 100 four-IsProcs
      ((λ e. omega (arith, e)), (λ e. omega (arith, e)), (λ e. omega (arith, e)))
      (λ e. omega (arith, e)) (λ e. omega (arith, e)) (omega arith) refl

-- The kernel runs, and the others are dead or asleep.
abbrev kernel_alone : Procs
kernel_alone = record four { ring = a_process 100 0 0 ∷ a_process 200 1 1 ∷ a_process 300 2 2 ∷ [] }
