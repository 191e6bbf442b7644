-- ===== src/Pm/Procs/Schedule/Ends.antt =====
-- `pm_schedule` ends with consistent processes.
use potatoes.Prelude.{
  ℕ, suc, ◌-◌, ◌<◌, ◌≤◌, ◌≡◌, ◌⊎◌, inl, inr, refl, ap, ◌∙◌, true, some, List, ◌∷◌, ◌++◌, ltb, ◌>>=◌,
  arith, length, length-append, Bool-cases,
}
use potatoes.Pm.Procs.{Process, Resources, Procs, pstate_alive, pm_schedule_from, pm_schedule}
use potatoes.Pm.Procs.Count.{IsProcs}
use potatoes.Pm.Procs.Keeps.{pm_schedule-Consistent}
use potatoes.Pm.Procs.Schedule.{Waiting, destroyed, scheduled, pm_schedule-Alive}
use potatoes.Pm.Procs.Schedule.Alone.{destroyed_alone, resumed, pm_schedule-alone}

-- Behind the active process `a`, `x` is the first one that is alive, and no destruction on the way to
-- it faults.
pub record Alive (s : Procs) (a : Process) (others : List Process) (context : ℕ) : Type 0 where
  pub x : Process
  pub waiting : List Process
  pub behind : List Process
  pub left : Resources
  pub ring : others ≡ waiting ++ (x ∷ behind)
  pub waits : Waiting waiting
  pub alive : x.state ≡ pstate_alive
  pub destroys :
      destroyed s.procs_head (record a { context = context }) waiting x behind s.resources
      ≡ some left

-- Only the active process is alive, and no destruction of another one faults.
pub record Alone (s : Procs) (a : Process) (others : List Process) (context : ℕ) : Type 0 where
  pub left : Resources
  pub waits : Waiting others
  pub alive : a.state ≡ pstate_alive
  pub destroys :
      destroyed_alone s.procs_head (record a { context = context }) others s.resources ≡ some left

abbrev pub Ends : Procs → ℕ → Type 0
Ends s context =
    (s' : Procs) × (context' : ℕ) × ((fuel : ℕ)
      → suc (length s.ring) ≤ fuel
      → pm_schedule fuel s context ≡ some (s', context'))
    × IsProcs s'

module _ (s : Procs) (a : Process) (others : List Process) (context : ℕ) (v : IsProcs s)
    (e : s.ring ≡ a ∷ others) where
  Ends-by :
      (s' : Procs) (context' : ℕ)
      → ((fuel : ℕ) → suc (length s.ring) ≤ fuel → pm_schedule fuel s context ≡ some (s', context'))
      → Ends s context
  Ends-by s' context' ran =
      let fuel = suc (length s.ring) in
      (
        s',
        context',
        ran,
        pm_schedule-Consistent fuel s s' context context' v (ran fuel (omega arith)),
      )

  size : length s.ring ≡ suc (length others)
  size = ap length e

  Ends-slices : 1 < a.remaining_timeslices → Ends s context
  unfolding pm_schedule pm_schedule_from
  Ends-slices more =
      let keeps : ltb 1 a.remaining_timeslices ≡ true = ground arith in
      Ends-by
        (record s {
          ring = record a { remaining_timeslices = a.remaining_timeslices - 1 } ∷ others;
        })
        context (λ fuel f. ap (λ ring. pm_schedule_from fuel s ring context) e ∙ rw keeps refl)

  Ends-Alive : a.remaining_timeslices ≤ 1 → Alive s a others context → Ends s context
  Ends-Alive last n =
      let count = length-append n.waiting (n.x ∷ n.behind) in
      let others_size = ap length n.ring in
      Ends-by (scheduled s a n.waiting n.x n.behind context n.left) n.x.context (λ fuel f.
        pm_schedule-Alive s a n.x n.waiting n.behind context fuel (e ∙ ap (λ ps. a ∷ ps) n.ring)
          last n.waits n.alive (omega (arith, size, count, others_size))
        ∙ ap (λ o. o >>= (λ r. some (scheduled s a n.waiting n.x n.behind context r, n.x.context)))
            n.destroys)

  Ends-Alone : a.remaining_timeslices ≤ 1 → Alone s a others context → Ends s context
  Ends-Alone last n = Ends-by (resumed s a others context n.left) context (λ fuel f.
      pm_schedule-alone s a others context fuel e last n.alive n.waits (omega (arith, size))
      ∙ ap (λ o. o >>= (λ r. some (resumed s a others context r, context))) n.destroys)

-- Where the processes are consistent, and either the active process has time slices left, or some
-- process is alive, all others between the active one and that one in the order of the ring are
-- dead or asleep, and no destruction of one of these faults, `pm_schedule` ends, with any fuel
-- above the number of processes, and leaves the processes consistent: their numbers and addresses
-- stay distinct, NULL is not among the addresses, and the process at the head of the list, which is
-- not dead, is neither destroyed nor lost.
pub pm_schedule-IsProcs :
    (s : Procs) (a : Process) (others : List Process) (context : ℕ)
    → IsProcs s
    → s.ring ≡ a ∷ others
    → (1 < a.remaining_timeslices) ⊎ (Alive s a others context ⊎ Alone s a others context)
    → Ends s context
pm_schedule-IsProcs s a others context v e (inl more) = Ends-slices s a others context v e more
pm_schedule-IsProcs s a others context v e (inr next) =
    elim (Bool-cases (ltb 1 a.remaining_timeslices)) [
      | inl more ↦ Ends-slices s a others context v e (ground arith)
      | inr last ↦ elim next [
        | inl n ↦ Ends-Alive s a others context v e (ground arith) n
        | inr n ↦ Ends-Alone s a others context v e (ground arith) n
      ]
    ]
