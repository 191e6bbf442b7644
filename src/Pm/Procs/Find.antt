-- ===== src/Pm/Procs/Find.antt =====
-- `pm_get_proc`, `pm_kill_proc` and `pm_create_thread`.
use potatoes.Prelude.{
  ℕ, suc, ◌+◌, ◌≤◌, ◌<◌, ◌%◌, ◌^◌, ◌≡◌, ◌≢◌, refl, ap, ◌∙◌, Bool, true, false, some, List, [], ◌∷◌,
  ◌++◌, ◌==◌, ◌&&◌, ◌>>=◌, if◌then◌else◌, Bool-cases, inl, inr, ne→==, ==→eq, eq→==, not, ap₂,
  arith,
}
use potatoes.Pm.Procs.{Process, Procs, from_head, find_pid, get_proc, pm_get_proc, pstate_dead}
use potatoes.Pm.Procs.Create.{
  Allocated, insert_proc, monitored, new_process, pm_create_thread, initial_stack,
}
use potatoes.Pm.Procs.Count.{
  count, living, IsProcs, has_pid, has_address, count-append, count-insert_after,
}

from_head-count :
    (head : ℕ) (before ps : List Process)
    → 1 ≤ count (has_address head) ps
    → (r : List Process) × (from_head head before ps ≡ some r)
      × ((f : Process → Bool) → count f r ≡ count f before + count f ps)
unfolding from_head
from_head-count head before [] l = absurd (omega (arith, l))
from_head-count head before (p ∷ ps) l = elim (Bool-cases (p.address == head)) [
  | inl same ↦ rw same (p ∷ ps ++ before, refl, λ f. ground (arith, count-append f ps before))
  | inr other ↦
      let (r, e, c) = from_head-count head (before ++ (p ∷ [])) ps (omega (arith, rw other at l)) in
      rw other (r, e, λ f. ground (arith, c f, count-append f before (p ∷ [])))
]

find_pid-none : (pid : ℕ) (ps : List Process) → count (has_pid pid) ps ≡ 0 → find_pid pid ps ≡ 0
unfolding find_pid
find_pid-none pid [] e = refl
find_pid-none pid (p ∷ ps) e = elim (Bool-cases (p.pid == pid)) [
  | inl same ↦ absurd (omega (arith, rw same at e))
  | inr other ↦ rw other (find_pid-none pid ps (omega (arith, rw other at e)))
]

-- The process at an address bears the number.
abbrev pub both : ℕ → ℕ → Process → Bool
both pid address p = (p.pid == pid) && (p.address == address)

count-both :
    (pid address : ℕ) (ps : List Process) → count (both pid address) ps ≤ count (has_pid pid) ps
count-both pid address [] = omega arith
count-both pid address (p ∷ ps) = ground (arith, count-both pid address ps)

find_pid-some :
    (pid address : ℕ) (ps : List Process)
    → count (has_pid pid) ps ≤ 1
    → 1 ≤ count (both pid address) ps
    → find_pid pid ps ≡ address
unfolding find_pid
find_pid-some pid address [] m l = absurd (omega (arith, l))
find_pid-some pid address (p ∷ ps) m l = elim (Bool-cases (p.pid == pid)) [
  | inl same ↦ rw same (ground (arith, m, l, same, count-both pid address ps))
  | inr other ↦
      rw other (find_pid-some pid address ps (omega (arith, m)) (omega (arith, rw other at l)))
]

count-living : (f : Process → Bool) (ps : List Process) → count (living f) ps ≤ count f ps
count-living f [] = omega arith
count-living f (p ∷ ps) = ground (arith, count-living f ps)

-- The head of the list is in the ring.
head-lem : (s : Procs) → IsProcs s → 1 ≤ count (has_address s.procs_head) s.ring
head-lem s v = omega (arith, v.head, count-living (has_address s.procs_head) s.ring)

-- Where the processes are consistent, `pm_get_proc` returns the process that bears the number, and
-- NULL where no process bears it.
pub pm_get_proc_lem :
    (s : Procs) (pid : ℕ)
    → IsProcs s
    → ((address : ℕ) → 1 ≤ count (both pid address) s.ring → pm_get_proc s pid ≡ some address)
      × (count (has_pid pid) s.ring ≡ 0 → pm_get_proc s pid ≡ some 0)
unfolding pm_get_proc get_proc
pm_get_proc_lem s pid v =
    let (r, e, c) = from_head-count s.procs_head [] s.ring (head-lem s v) in
    (
      λ address l.
          ap (λ ps. ps >>= (λ ps'. some (find_pid pid ps'))) e
          ∙ ap some (
              find_pid-some pid address r (omega (arith, c (has_pid pid), v.pids pid))
                (omega (arith, c (both pid address), l))),
      λ z.
          ap (λ ps. ps >>= (λ ps'. some (find_pid pid ps'))) e
          ∙ ap some (find_pid-none pid r (omega (arith, c (has_pid pid), z))),
    )

-- What `pm_create_thread` puts into the ring.
abbrev Fresh : Allocated → Type 0
Fresh a = (a.proc.address ≢ 0) × (a.stack_start ≢ 0) × (a.stdin ≢ 0)

module _ (f : Process → Bool) (p : Process) (ps : List Process) where
  count-first : count f (p ∷ ps) ≤ suc (count f ps)
  count-first = ground arith

  take-first : f p ≡ true → count f (p ∷ ps) ≡ suc (count f ps)
  take-first e = ground (arith, e)

  skip-first : f p ≡ false → count f (p ∷ ps) ≡ count f ps
  skip-first e = ground (arith, e)

module _ (s : Procs) (proc : Process) (v : IsProcs s) (na : proc.address ≢ 0)
    (ep : proc.pid ≡ s.next_pid) (es : (proc.state == pstate_dead) ≡ false)
    (l : s.next_pid + 1 < 2 ^ 32) (c : count (has_address proc.address) s.ring ≡ 0) where
  abbrev inserted : List Process → Procs
  inserted r = record s {
    ring = r;
    next_pid = (s.next_pid + 1) % 2 ^ 32;
    resources = record s.resources { focus_proc = proc.address };
  }

  not-head : (proc.address == s.procs_head) ≡ false
  not-head = elim (Bool-cases (proc.address == s.procs_head)) [
    | inl same ↦ absurd (
        omega (
          arith,
          c,
          ap (λ n. count (has_address n) s.ring) (==→eq proc.address s.procs_head same),
          head-lem s v,
        ))
    | inr other ↦ other
  ]

  inserted-IsProcs :
      (r : List Process)
      → ((f : Process → Bool) → count f r ≡ count f (proc ∷ s.ring))
      → IsProcs (inserted r)
  inserted-IsProcs r k = record {
    pids = λ pid. ground (arith, k (has_pid pid), v.pids pid, v.next pid, ep);
    next = λ pid m. ground (arith, k (has_pid pid), v.next pid, ep, l, m);
    addresses = λ address. elim (Bool-cases (proc.address == address)) [
      | inl same ↦ omega (
        arith,
        k (has_address address),
        count-first (has_address address) proc s.ring,
        ap (λ n. count (has_address n) s.ring) (==→eq proc.address address same),
        c,
      )
      | inr other ↦ omega (
        arith,
        k (has_address address),
        skip-first (has_address address) proc s.ring other,
        v.addresses address,
      )
    ];
    null =
        k (has_address 0)
        ∙ (skip-first (has_address 0) proc s.ring (ne→== proc.address 0 na) ∙ v.null);
    head =
        k (living (has_address s.procs_head))
        ∙ (skip-first (living (has_address s.procs_head)) proc s.ring
              (ap (λ b. b && not (proc.state == pstate_dead)) not-head)
            ∙ v.head);
  }

  insert_proc-IsProcs :
      (s' : Procs) × (insert_proc s proc ≡ some s')
      × IsProcs s'
      × (1 ≤ count (both s.next_pid proc.address) s'.ring)
      × (s'.resources.focus_proc ≡ proc.address)
  unfolding insert_proc
  insert_proc-IsProcs =
      let (r, e, k) = count-insert_after s.procs_head proc s.ring (head-lem s v) in
      (
        inserted r,
        ap (λ o. o >>= (λ ring. some (inserted ring))) e,
        inserted-IsProcs r k,
        omega (
          arith,
          k (both s.next_pid proc.address),
          take-first (both s.next_pid proc.address) proc s.ring
              (ap₂ ◌&&◌ (eq→== proc.pid s.next_pid ep) (eq→== proc.address proc.address refl)),
        ),
        refl,
      )

-- Fields that no test of `IsProcs` sees.
monitored-IsProcs : (s : Procs) (a : Allocated) → IsProcs s → IsProcs (monitored s a)
monitored-IsProcs s a v = record {
  pids = v.pids;
  next = v.next;
  addresses = v.addresses;
  null = v.null;
  head = v.head;
}

-- Where the processes are consistent, the allocations succeed, the memory of the new process is not
-- that of another one, and `next_pid` does not wrap, `pm_create_thread` ends and returns
-- `next_pid`; the processes are consistent again, and by that number `pm_get_proc` returns the new
-- process, which has the focus and the monitor that `start_vmonitor` returned.
pub pm_create_thread-IsProcs :
    (s : Procs) (memory : ℕ → ℕ) (a : Allocated) (name entry stacksize : ℕ)
    → IsProcs s
    → Fresh a
    → name ≢ 0
    → entry ≢ 0
    → s.next_pid + 1 < 2 ^ 32
    → count (has_address a.proc.address) s.ring ≡ 0
    → (s' : Procs) × (memory' : ℕ → ℕ) × (pm_create_thread s memory a name entry stacksize
        ≡ some (s', memory', s.next_pid))
      × IsProcs s'
      × (pm_get_proc s' s.next_pid ≡ some a.proc.address)
      × (s'.resources.focus_proc ≡ a.proc.address)
      × (s'.resources.vmonitor a.proc.address ≡ a.vmonitor)
unfolding pm_create_thread
pm_create_thread-IsProcs s memory a name entry stacksize v (fa, fs, fi) n e l c =
    let (context, memory') = initial_stack entry ((a.stack_start + stacksize) % 2 ^ 32, memory) in
    let proc = new_process s a context in
    let (s', made, v', at, focus) = insert_proc-IsProcs s proc v fa refl refl l c in
    (
      monitored s' a,
      memory',
      rw
          (
            ne→== name 0 n,
            ne→== entry 0 e,
            ne→== a.proc.address 0 fa,
            ne→== a.stack_start 0 fs,
            ne→== a.stdin 0 fi,
          )
          (ap (λ o. o >>= (λ r. some (monitored r a, memory', s.next_pid))) made),
      monitored-IsProcs s' a v',
      (pm_get_proc_lem (monitored s' a) s.next_pid (monitored-IsProcs s' a v')).0 a.proc.address at,
      focus,
      ap (λ b. if b then a.vmonitor else s'.resources.vmonitor a.proc.address)
          (eq→== a.proc.address a.proc.address refl),
    )
