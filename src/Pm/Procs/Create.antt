-- ===== src/Pm/Procs/Create.antt =====
-- `pm_create_thread` of src/kernel/pm/pm_main.c.
use potatoes.Prelude.{
  ℕ, zero, suc, ◌+◌, ◌-◌, ◌%◌, ◌^◌, ◌||◌, Option, none, some, List, [], ◌∷◌, ◌==◌, if◌then◌else◌,
  ◌>>=◌,
}
use potatoes.Io.Monitors.{Monitors}
use potatoes.Fs.Files.{init_proc_file_table}
use potatoes.Pm.Procs.{Process, Procs, pstate_alive, set_vmonitor_at}

-- What the allocations of `pm_create_thread` return, and the process's memory at its address; the
-- index that `start_vmonitor` returns, with the array of monitors as it leaves it.
pub record Allocated : Type 0 where
  pub proc : Process
  pub name : ℕ
  pub stack_start : ℕ
  pub stdin : ℕ
  pub vmonitor : ℕ
  pub monitors : Monitors

-- `*--stack = value` on a stack pointer and the memory of words.
pub push : ℕ → ℕ × (ℕ → ℕ) → ℕ × (ℕ → ℕ)
push value (stack, memory) =
    let top = (stack + (2 ^ 32 - 4)) % 2 ^ 32 in (top, λ a. if a == top then value else memory a)

pub push_zeros : ℕ → ℕ × (ℕ → ℕ) → ℕ × (ℕ → ℕ)
unfolding push
push_zeros zero s = s
push_zeros (suc n) s = push_zeros n (push 0 s)

pub initial_stack : ℕ → ℕ × (ℕ → ℕ) → ℕ × (ℕ → ℕ)
unfolding push push_zeros
initial_stack entry s =
    let frame = push_zeros 10 (push entry (push 0x08 (push 0x202 s))) in
    push 0x10 (push 0x10 (push 0x10 (push 0x10 frame)))

-- `proc->next = procs_head->next; procs_head->next = proc`.
unfoldable pub insert_after : ℕ → Process → List Process → Option (List Process)
insert_after head proc [] = none
insert_after head proc (p ∷ ps) =
    let rest = insert_after head proc ps >>= (λ r. some (p ∷ r)) in
    if p.address == head then some (p ∷ proc ∷ ps) else rest

abbrev pub new_process : Procs → Allocated → ℕ → Process
new_process s a context = record a.proc {
  name = a.name;
  pid = s.next_pid;
  state = pstate_alive;
  pft = init_proc_file_table a.proc.pft;
  stack_start = a.stack_start;
  stdin = a.stdin;
  context = context;
  remaining_timeslices = 1;
  priority = 1;
}

unfoldable pub insert_proc : Procs → Process → Option Procs
unfolding insert_after
insert_proc s proc = insert_after s.procs_head proc s.ring >>= (λ ring. some (record s {
  ring = ring;
  next_pid = (s.next_pid + 1) % 2 ^ 32;
  resources = record s.resources { focus_proc = proc.address };
}))

-- `proc->vmonitor = start_vmonitor(name, proc->pid)`.
abbrev pub monitored : Procs → Allocated → Procs
monitored s a = record s {
  resources =
      set_vmonitor_at (record s.resources { monitors = a.monitors }) a.proc.address a.vmonitor;
}

-- The state, the memory and the PID.
unfoldable pub pm_create_thread :
    Procs → (ℕ → ℕ) → Allocated → ℕ → ℕ → ℕ → Option (Procs × (ℕ → ℕ) × ℕ)
unfolding initial_stack insert_proc
pm_create_thread s memory a name entry stacksize =
    let (context, memory') = initial_stack entry ((a.stack_start + stacksize) % 2 ^ 32, memory) in
    let created =
      insert_proc s (new_process s a context)
      >>= (λ s'. some (monitored s' a, memory', s.next_pid)) in
    if (name == 0 || entry == 0) || (a.proc.address == 0 || (a.stack_start == 0 || a.stdin == 0))
    then none
    else created
