-- ===== src/Pm/Procs.antt =====
-- The processes of src/kernel/pm/pm_main.c and the system calls of pm_syscalls.c that are about
-- them. A process is named by its address, and NULL is 0. The ring of the `next` pointers is the
-- list that begins with `active_proc`, and is empty before `pm_init`; the process behind the last
-- one is the first. A panic, a failed assertion, a use of memory that is free and a use of NULL are
-- `none`. The field `vmonitor` of the processes is kept apart, as a map from their addresses to the
-- indices of the array of monitors, since the release of a monitor assigns it in another process.
pub mod Create
pub mod Count
pub mod Destroy
pub mod Keeps
pub mod Schedule
pub mod Find
mod Tests
use potatoes.Prelude.{
  ℕ, zero, suc, ◌-◌, Option, none, some, List, [], ◌∷◌, ◌++◌, ◌==◌, ltb, if◌then◌else◌, ◌>>=◌,
}
use potatoes.Io.Monitors.{Monitors, Request, set_focus, set_vmonitor, free_virt_monitor}
use potatoes.Fs.Files.{ProcFile}

abbrev pub pstate_alive : ℕ
pstate_alive = 0

abbrev pub pstate_dead : ℕ
pstate_dead = 1

abbrev pub pstate_stdinsleep : ℕ
pstate_stdinsleep = 2

-- `name`, `stack_start` and `stdin` are addresses.
pub record Process : Type 0 where
  pub address : ℕ
  pub name : ℕ
  pub pid : ℕ
  pub state : ℕ
  pub context : ℕ
  pub stack_start : ℕ
  pub stdin : ℕ
  pub pft : List ProcFile
  pub priority : ℕ
  pub remaining_timeslices : ℕ

-- What the end of a process changes besides the ring: the array of monitors, the monitor of each
-- process by the process's address, the process with the focus, and the addresses that were handed to
-- `rf_free` and `free`, in this order.
pub record Resources : Type 0 where
  pub monitors : Monitors
  pub vmonitor : ℕ → ℕ
  pub focus_proc : ℕ
  pub freed : List ℕ

pub record Procs : Type 0 where
  pub ring : List Process
  pub procs_head : ℕ
  pub next_pid : ℕ
  pub resources : Resources

pub getpid : Procs → Option ℕ
getpid s = elim s.ring [ [] ↦ none | p ∷ ps ↦ some p.pid ]

-- The ring from `procs_head` on.
pub from_head : ℕ → List Process → List Process → Option (List Process)
from_head head before [] = none
from_head head before (p ∷ ps) =
    let rest = from_head head (before ++ (p ∷ [])) ps in
    if p.address == head then some (p ∷ ps ++ before) else rest

pub find_pid : ℕ → List Process → ℕ
find_pid pid [] = 0
find_pid pid (p ∷ ps) = if p.pid == pid then p.address else find_pid pid ps

-- `pm_get_proc` over a ring.
pub get_proc : ℕ → List Process → ℕ → Option ℕ
unfolding from_head find_pid
get_proc head ring pid = from_head head [] ring >>= (λ ps. some (find_pid pid ps))

pub pm_get_proc : Procs → ℕ → Option ℕ
unfolding get_proc
pm_get_proc s pid = get_proc s.procs_head s.ring pid

-- The process at an address gets the monitor `i`.
abbrev pub set_vmonitor_at : Resources → ℕ → ℕ → Resources
set_vmonitor_at r address i = record r { vmonitor = λ a. if a == address then i else r.vmonitor a }

-- What `free_virt_monitor` asks for: `pm_set_focus_proc(pid)`, and `pm_get_proc(pid)->vmonitor = vm`,
-- which is a fault where there is no such process.
pub serve_one : ℕ → List Process → Resources → Request → Option Resources
unfolding get_proc
serve_one head ring r (set_focus pid) =
    get_proc head ring pid >>= (λ p. some (record r { focus_proc = p }))
serve_one head ring r (set_vmonitor pid i) =
    get_proc head ring pid >>= (λ p. if p == 0 then none else some (set_vmonitor_at r p i))

pub serve : ℕ → List Process → Resources → List Request → Option Resources
unfolding serve_one
serve head ring r [] = some r
serve head ring r (q ∷ qs) = serve_one head ring r q >>= (λ r'. serve head ring r' qs)

-- `rf_free(proc->stdin)`, `free(proc->name)`, `free(proc->stack_start)` and `free(proc)`.
abbrev pub freed_of : Process → List ℕ
freed_of p =
    (if p.stdin == 0 then [] else p.stdin ∷ []) ++ (p.name ∷ p.stack_start ∷ p.address ∷ [])

pub pm_destroy_thread : ℕ → List Process → Resources → Process → Option Resources
unfolding serve
pm_destroy_thread head ring r p =
    free_virt_monitor r.monitors (r.vmonitor p.address) >>= (λ (monitors, requests).
      serve head ring (record r { monitors = monitors }) requests
      >>= (λ r'. some (record r' { freed = r'.freed ++ freed_of p })))

-- `active_proc = active_proc->next`.
pub rotate : List Process → List Process
rotate [] = []
rotate (p ∷ ps) = ps ++ (p ∷ [])

-- The state of `active_proc->next`.
pub next_state : List Process → ℕ
next_state [] = pstate_alive
next_state (p ∷ []) = p.state
next_state (p ∷ q ∷ ps) = q.state

-- The loops of `pm_schedule`. A process is destroyed while it is still in the ring. Once the active
-- process itself is destroyed it is read again.
pub skip_dead : ℕ → List Process × Resources → Option (List Process × Resources)
unfolding pm_destroy_thread
skip_dead head ([], r) = none
skip_dead head (p ∷ [], r) = if p.state == pstate_dead then none else some (p ∷ [], r)
skip_dead head (p ∷ q ∷ ps, r) =
    let rest = pm_destroy_thread head (p ∷ q ∷ ps) r q >>= (λ r'. skip_dead head (p ∷ ps, r')) in
    if q.state == pstate_dead then rest else some (p ∷ q ∷ ps, r)

pub skip_asleep : ℕ → List Process × Resources → Option (List Process × Resources)
unfolding rotate next_state
skip_asleep zero s = none
skip_asleep (suc fuel) (ring, r) =
    let rest = skip_asleep fuel (rotate ring, r) in
    if next_state ring == pstate_stdinsleep then rest else some (ring, r)

pub find_alive : ℕ → ℕ → List Process × Resources → Option (List Process × Resources)
unfolding next_state skip_dead skip_asleep
find_alive head zero s = none
find_alive head (suc fuel) (ring, r) =
    let rest = skip_dead head (ring, r) >>= skip_asleep fuel >>= find_alive head fuel in
    if next_state ring == pstate_alive then some (ring, r) else rest

pub activate : Procs → List Process × Resources → Option (Procs × ℕ)
activate s ([], r) = none
activate s (p ∷ ps, r) = some (
  record s { ring = record p { remaining_timeslices = p.priority } ∷ ps; resources = r },
  p.context,
)

pub pm_schedule_from : ℕ → Procs → List Process → ℕ → Option (Procs × ℕ)
unfolding find_alive rotate activate
pm_schedule_from fuel s [] context = some (s, context)
pm_schedule_from fuel s (p ∷ ps) context =
    let switched =
      find_alive s.procs_head fuel (record p { context = context } ∷ ps, s.resources)
      >>= (λ (ring, r). activate s (rotate ring, r)) in
    if ltb 1 p.remaining_timeslices
    then some (
      record s { ring = record p { remaining_timeslices = p.remaining_timeslices - 1 } ∷ ps },
      context,
    )
    else switched

pub pm_schedule : ℕ → Procs → ℕ → Option (Procs × ℕ)
unfolding pm_schedule_from
pm_schedule fuel s context = pm_schedule_from fuel s s.ring context

-- An assignment to a field of the process at an address. At NULL nothing is assigned.
pub update_proc : ℕ → (Process → Process) → List Process → List Process
update_proc address f [] = []
update_proc address f (p ∷ ps) =
    (if p.address == address then f p else p) ∷ update_proc address f ps

pub pm_set_thread_priority : Procs → ℕ → ℕ → Option Procs
unfolding pm_get_proc update_proc
pm_set_thread_priority s pid prio = pm_get_proc s pid >>= (λ p. some (
    if p == 0
    then s
    else record s { ring = update_proc p (λ q. record q { priority = prio }) s.ring }))

pub pm_set_focus_proc : Procs → ℕ → Option Procs
unfolding pm_get_proc
pm_set_focus_proc s pid =
    pm_get_proc s pid
    >>= (λ p. some (record s { resources = record s.resources { focus_proc = p } }))

pub pm_kill_proc : Procs → ℕ → Option Procs
unfolding pm_get_proc update_proc
pm_kill_proc s pid = pm_get_proc s pid >>= (λ p. some (
    if p == 0
    then s
    else record s { ring = update_proc p (λ q. record q { state = pstate_dead }) s.ring }))

pub sys_exit_from : Procs → List Process → Option Procs
sys_exit_from s [] = none
sys_exit_from s (p ∷ ps) =
    if p.pid == 0 then none else some (record s { ring = record p { state = pstate_dead } ∷ ps })

pub sys_exit : Procs → Option Procs
unfolding sys_exit_from
sys_exit s = sys_exit_from s s.ring

pub sys_kill : Procs → ℕ → Option Procs
unfolding pm_kill_proc
sys_kill s pid = pm_kill_proc s pid
