-- ===== src/Pm/Procs/Schedule/Alone.antt =====
-- `pm_schedule` where the active process is the only one that is alive.
use potatoes.Prelude.{
  ℕ, zero, suc, ◌<◌, ◌≤◌, ◌≡◌, inl, inr, refl, ap, ◌∙◌, Option, none, some, List, [], ◌∷◌, ◌>>=◌,
  ◌==◌, if◌then◌else◌, arith, length,
}
use potatoes.Pm.Procs.{
  Process, Resources, Procs, pstate_alive, pstate_dead, pstate_stdinsleep, pm_destroy_thread,
  rotate, next_state, skip_dead, skip_asleep, find_alive, activate, pm_schedule_from, pm_schedule,
}
use potatoes.Pm.Procs.Schedule.{
  Waiting, sleepers, destroyed, turned, waiting-alive, searched, searched-dead, searched-alive,
  Found-skip_asleep, find_alive_lem, activate-turned, last_slice,
}

-- The dead processes behind `x` are destroyed, as in `destroyed`, up to `x` itself.
pub destroyed_alone : ℕ → Process → List Process → Resources → Option Resources
unfolding pm_destroy_thread destroyed
destroyed_alone head x [] r = some r
destroyed_alone head x (p ∷ ps) r =
    let dead = pm_destroy_thread head (x ∷ p ∷ ps) r p >>= (λ r'. destroyed_alone head x ps r') in
    let asleep = destroyed head p ps x [] r in if p.state == pstate_dead then dead else asleep

module _ (head : ℕ) (x : Process) (alive : x.state ≡ pstate_alive) where
  -- The search comes back to `x`, from which it started.
  abbrev Returns : List Process → Resources → Option (List Process × Resources) → Type 0
  Returns waiting r o =
      o >>= turned ≡ destroyed_alone head x waiting r >>= (λ r'. some (x ∷ sleepers waiting, r'))

  Returns-asleep :
      (fuel f : ℕ) (p : Process) (ps : List Process) (r : Resources)
      → p.state ≡ pstate_stdinsleep
      → Waiting ps
      → suc (length ps) < suc f
      → suc (length ps) < fuel
      → Returns (p ∷ ps) r (skip_asleep (suc f) (x ∷ p ∷ ps, r) >>= find_alive head fuel)
  unfolding skip_asleep next_state rotate sleepers destroyed_alone
  Returns-asleep fuel f p ps r e w l m =
      rw (ap (λ n. n == pstate_stdinsleep) e, ap (λ n. n == pstate_dead) e)
        (Found-skip_asleep head x alive fuel f (find_alive_lem head x alive fuel) p ps [] r w
          (omega (arith, l)) m)

  Returns-dead :
      (p : Process) (ps : List Process) (r : Resources)
      (f : Resources → Option (List Process × Resources))
      → p.state ≡ pstate_dead
      → ((r' : Resources) → Returns ps r' (f r'))
      → Returns (p ∷ ps) r (pm_destroy_thread head (x ∷ p ∷ ps) r p >>= f)
  unfolding sleepers destroyed_alone
  Returns-dead p ps r f e found =
      rw (ap (λ n. n == pstate_dead) e) (after (pm_destroy_thread head (x ∷ p ∷ ps) r p))
    where
      after :
          (o : Option Resources)
          → o >>= f >>= turned
            ≡ o >>= (λ r'. destroyed_alone head x ps r') >>= (λ r'. some (x ∷ sleepers ps, r'))
      after none = refl
      after (some r') = found r'

  Returns-searched :
      (fuel : ℕ) (waiting : List Process) (r : Resources)
      → Waiting waiting
      → length waiting < fuel
      → 1 < fuel
      → Returns waiting r (searched head x alive fuel (x ∷ waiting, r))
  unfolding skip_dead skip_asleep next_state find_alive rotate sleepers destroyed_alone
  Returns-searched zero waiting r w l m = absurd (omega (arith, l))
  Returns-searched (suc fuel) [] r w l m =
      rw
        (
          ap (λ n. n == pstate_dead) alive,
          ap (λ n. n == pstate_stdinsleep) alive,
          ap (λ n. n == pstate_alive) alive,
        )
        refl
  Returns-searched (suc fuel) (p ∷ ps) r (inl e, w) l m =
      ap (λ o. o >>= turned) (searched-dead head x alive (suc fuel) x p ps r e)
      ∙ Returns-dead p ps r (λ r'. searched head x alive (suc fuel) (x ∷ ps, r')) e
          (λ r'. Returns-searched (suc fuel) ps r' w (omega (arith, l)) m)
  Returns-searched (suc fuel) (p ∷ ps) r (inr e, w) l m =
      ap (λ o. o >>= turned)
        (searched-alive head x alive (suc fuel) x p ps r (ap (λ n. n == pstate_dead) e))
      ∙ Returns-asleep (suc fuel) fuel p ps r e w (omega (arith, l)) (omega (arith, l))

  pub find_alive-Returns :
      (fuel : ℕ) (waiting : List Process) (r : Resources)
      → Waiting waiting
      → suc (length waiting) < fuel
      → Returns waiting r (find_alive head fuel (x ∷ waiting, r))
  unfolding find_alive next_state rotate sleepers destroyed_alone
  find_alive-Returns zero waiting r w l = absurd (omega (arith, l))
  find_alive-Returns (suc fuel) [] r w l = rw (ap (λ n. n == pstate_alive) alive) refl
  find_alive-Returns (suc fuel) (p ∷ ps) r (e, w) l =
      rw (waiting-alive p e)
        (Returns-searched fuel (p ∷ ps) r (e, w) (omega (arith, l)) (omega (arith, l)))

-- `pm_schedule` has come back to `x`.
abbrev pub resumed : Procs → Process → List Process → ℕ → Resources → Procs
resumed s x waiting context r = record s {
  ring = record x { context = context; remaining_timeslices = x.priority } ∷ sleepers waiting;
  resources = r;
}

reactivated :
    (s : Procs) (x : Process) (waiting : List Process) (context : ℕ) (o : Option Resources)
    → o >>= (λ r. some (record x { context = context } ∷ sleepers waiting, r)) >>= activate s
      ≡ o >>= (λ r. some (resumed s x waiting context r, context))
unfolding activate
reactivated s x waiting context none = refl
reactivated s x waiting context (some r) = refl

-- The active process has used up its time slices and is alive, and all others are dead or asleep.
-- `pm_schedule`, with fuel of at least two more than these, destroys the dead ones; where one of
-- these calls faults, so does `pm_schedule`, and otherwise it ends and lets the active process go
-- on with as many time slices as its priority; those that sleep are kept.
pub pm_schedule-alone :
    (s : Procs) (x : Process) (waiting : List Process) (context fuel : ℕ)
    → s.ring ≡ x ∷ waiting
    → x.remaining_timeslices ≤ 1
    → x.state ≡ pstate_alive
    → Waiting waiting
    → suc (length waiting) < fuel
    → pm_schedule fuel s context
      ≡ destroyed_alone s.procs_head (record x { context = context }) waiting s.resources
        >>= (λ r. some (resumed s x waiting context r, context))
unfolding pm_schedule pm_schedule_from
pm_schedule-alone s x waiting context fuel e l alive w f =
    let x' = record x { context = context } in
    ap (λ ring. pm_schedule_from fuel s ring context) e
    ∙ (rw (last_slice x l)
          (activate-turned s (find_alive s.procs_head fuel (x' ∷ waiting, s.resources)))
        ∙ (ap (λ o. o >>= activate s)
              (find_alive-Returns s.procs_head x' alive fuel waiting s.resources w f)
            ∙ reactivated s x waiting context
                (destroyed_alone s.procs_head x' waiting s.resources)))
