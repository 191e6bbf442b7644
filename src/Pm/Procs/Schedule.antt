-- ===== src/Pm/Procs/Schedule.antt =====
-- `pm_schedule`.
pub mod Alone
pub mod Ends
use potatoes.Prelude.{
  ℕ, zero, suc, ◌<◌, ◌≤◌, ◌≡◌, ◌⊎◌, inl, inr, refl, sym, ap, ◌∙◌, Option, some, none, List, [], ◌∷◌,
  ◌++◌, append-nil, append_assoc, false, ltb, ◌>>=◌, ◌==◌, if◌then◌else◌, arith, length,
}
use potatoes.Pm.Procs.{
  Process, Resources, Procs, pstate_alive, pstate_dead, pstate_stdinsleep, pm_destroy_thread,
  rotate, next_state, skip_dead, skip_asleep, find_alive, activate, pm_schedule_from, pm_schedule,
}

-- Processes that `pm_schedule` does not run: each is dead or asleep.
abbrev pub Waiting : List Process → Type 0
Waiting [] = Unit
Waiting (p ∷ ps) = ((p.state ≡ pstate_dead) ⊎ (p.state ≡ pstate_stdinsleep)) × Waiting ps

-- Those of them that are asleep.
pub sleepers : List Process → List Process
sleepers [] = []
sleepers (p ∷ ps) = if p.state == pstate_dead then sleepers ps else p ∷ sleepers ps

-- The dead ones are destroyed one after the other. At each of them the ring holds it still, those
-- before it are gone, and the active process is `a` or the last one that slept; it is `none` where
-- one of these calls faults.
unfoldable pub destroyed :
    ℕ → Process → List Process → Process → List Process → Resources → Option Resources
unfolding pm_destroy_thread
destroyed head a [] x behind r = some r
destroyed head a (p ∷ ps) x behind r =
    let dead =
      pm_destroy_thread head (a ∷ p ∷ ps ++ (x ∷ behind)) r p
      >>= (λ r'. destroyed head a ps x behind r') in
    let asleep = destroyed head p ps x (behind ++ (a ∷ [])) r in
    if p.state == pstate_dead then dead else asleep

-- The rotation behind the search.
abbrev pub turned : List Process × Resources → Option (List Process × Resources)
turned (ring, r) = some (rotate ring, r)

pub waiting-alive :
    (p : Process)
    → (p.state ≡ pstate_dead) ⊎ (p.state ≡ pstate_stdinsleep)
    → (p.state == pstate_alive) ≡ false
waiting-alive p (inl e) = ap (λ n. n == pstate_alive) e
waiting-alive p (inr e) = ap (λ n. n == pstate_alive) e

module _ (head : ℕ) (x : Process) (alive : x.state ≡ pstate_alive) where
  -- The search runs from the active process `a`, with `waiting` between it and `x`.
  abbrev pub start : Process → List Process → List Process → List Process
  start a waiting behind = a ∷ waiting ++ (x ∷ behind)

  abbrev pub left : Process → List Process → List Process → List Process
  left a waiting behind = x ∷ (behind ++ (a ∷ [])) ++ sleepers waiting

  abbrev pub Found :
      Process → List Process → List Process → Resources → Option (List Process × Resources) → Type 0
  Found a waiting behind r o =
      o >>= turned
      ≡ destroyed head a waiting x behind r >>= (λ r'. some (left a waiting behind, r'))

  abbrev pub Finds : ℕ → Type 0
  Finds fuel =
      (a : Process) (waiting behind : List Process) (r : Resources)
      → Waiting waiting
      → suc (length waiting) < fuel
      → Found a waiting behind r (find_alive head fuel (start a waiting behind, r))

  -- The active process is left behind, for the process `p` behind it, which sleeps.
  Found-turn :
      (a p : Process) (waiting behind : List Process) (r : Resources)
      (o : Option (List Process × Resources))
      → p.state ≡ pstate_stdinsleep
      → Found p waiting (behind ++ (a ∷ [])) r o
      → Found a (p ∷ waiting) behind r o
  unfolding sleepers destroyed
  Found-turn a p waiting behind r o e found = rw (ap (λ n. n == pstate_dead) e) (
      found
      ∙ ap (λ ps. destroyed head p waiting x (behind ++ (a ∷ [])) r >>= (λ r'. some (x ∷ ps, r')))
          (append_assoc (behind ++ (a ∷ [])) (p ∷ []) (sleepers waiting)))

  -- The process `p` behind the active one is dead.
  Found-destroyed :
      (a p : Process) (waiting behind : List Process) (r : Resources)
      (f : Resources → Option (List Process × Resources))
      → p.state ≡ pstate_dead
      → ((r' : Resources) → Found a waiting behind r' (f r'))
      → Found a
          (p ∷ waiting)
          behind
          r
          (pm_destroy_thread head (start a (p ∷ waiting) behind) r p >>= f)
  unfolding sleepers destroyed
  Found-destroyed a p waiting behind r f e found =
      rw (ap (λ n. n == pstate_dead) e)
        (after (pm_destroy_thread head (start a (p ∷ waiting) behind) r p))
    where
      after :
          (o : Option Resources)
          → o >>= f >>= turned
            ≡ o
              >>= (λ r'. destroyed head a waiting x behind r')
              >>= (λ r'. some (left a waiting behind, r'))
      after none = refl
      after (some r') = found r'

  skip_asleep_turn :
      (f : ℕ) (a p : Process) (waiting behind : List Process) (r : Resources)
      → p.state ≡ pstate_stdinsleep
      → skip_asleep (suc f) (start a (p ∷ waiting) behind, r)
        ≡ skip_asleep f (start p waiting (behind ++ (a ∷ [])), r)
  unfolding skip_asleep next_state rotate
  skip_asleep_turn f a p waiting behind r e =
      rw (ap (λ n. n == pstate_stdinsleep) e)
        (ap (λ ps. skip_asleep f (p ∷ ps, r)) (append_assoc waiting (x ∷ behind) (a ∷ [])))

  pub Found-skip_asleep :
      (fuel f : ℕ)
      → Finds fuel
      → (a : Process) (waiting behind : List Process) (r : Resources) → Waiting waiting
      → length waiting < f
      → suc (length waiting) < fuel
      → Found a waiting behind r
          (skip_asleep f (start a waiting behind, r) >>= find_alive head fuel)
  unfolding skip_asleep next_state
  Found-skip_asleep fuel zero finds a waiting behind r w l m = absurd (omega (arith, l))
  Found-skip_asleep fuel (suc f) finds a [] behind r w l m =
      rw (ap (λ n. n == pstate_stdinsleep) alive) (finds a [] behind r w m)
  Found-skip_asleep fuel (suc f) finds a (p ∷ ps) behind r (inl e, w) l m =
      rw (ap (λ n. n == pstate_stdinsleep) e) (finds a (p ∷ ps) behind r (inl e, w) m)
  Found-skip_asleep fuel (suc f) finds a (p ∷ ps) behind r (inr e, w) l m =
      Found-turn a p ps behind r _ e (
        ap (λ o. o >>= find_alive head fuel >>= turned) (skip_asleep_turn f a p ps behind r e)
        ∙ Found-skip_asleep fuel f finds p ps (behind ++ (a ∷ [])) r w (omega (arith, l))
            (omega (arith, m)))

  -- The loops behind the first test of the search.
  abbrev pub searched : ℕ → List Process × Resources → Option (List Process × Resources)
  searched fuel s = skip_dead head s >>= skip_asleep fuel >>= find_alive head fuel

  pub searched-dead :
      (fuel : ℕ) (a p : Process) (ps : List Process) (r : Resources)
      → p.state ≡ pstate_dead
      → searched fuel (a ∷ p ∷ ps, r)
        ≡ pm_destroy_thread head (a ∷ p ∷ ps) r p >>= (λ r'. searched fuel (a ∷ ps, r'))
  unfolding skip_dead
  searched-dead fuel a p ps r e =
      rw (ap (λ n. n == pstate_dead) e) (after (pm_destroy_thread head (a ∷ p ∷ ps) r p))
    where
      after :
          (o : Option Resources)
          → o >>= (λ r'. skip_dead head (a ∷ ps, r')) >>= skip_asleep fuel >>= find_alive head fuel
            ≡ o >>= (λ r'. searched fuel (a ∷ ps, r'))
      after none = refl
      after (some r') = refl

  pub searched-alive :
      (fuel : ℕ) (a p : Process) (ps : List Process) (r : Resources)
      → (p.state == pstate_dead) ≡ false
      → searched fuel (a ∷ p ∷ ps, r) ≡ skip_asleep fuel (a ∷ p ∷ ps, r) >>= find_alive head fuel
  unfolding skip_dead
  searched-alive fuel a p ps r e = rw e refl

  Found-searched :
      (fuel : ℕ)
      → Finds fuel
      → (a : Process) (waiting behind : List Process) (r : Resources) → Waiting waiting
      → length waiting < fuel
      → 1 < fuel
      → Found a waiting behind r (searched fuel (start a waiting behind, r))
  Found-searched fuel finds a [] behind r w l m =
      ap (λ o. o >>= turned) (searched-alive fuel a x behind r (ap (λ n. n == pstate_dead) alive))
      ∙ Found-skip_asleep fuel fuel finds a [] behind r w l m
  Found-searched fuel finds a (p ∷ ps) behind r (inl e, w) l m =
      ap (λ o. o >>= turned) (searched-dead fuel a p (ps ++ (x ∷ behind)) r e)
      ∙ Found-destroyed a p ps behind r (λ r'. searched fuel (start a ps behind, r')) e
          (λ r'. Found-searched fuel finds a ps behind r' w (omega (arith, l)) m)
  Found-searched zero finds a (p ∷ ps) behind r (inr e, w) l m = absurd (omega (arith, l))
  Found-searched (suc fuel) finds a (p ∷ ps) behind r (inr e, w) l m =
      Found-turn a p ps behind r _ e (
        ap (λ o. o >>= turned)
          (searched-alive (suc fuel) a p (ps ++ (x ∷ behind)) r (ap (λ n. n == pstate_dead) e))
        ∙ (ap (λ o. o >>= find_alive head (suc fuel) >>= turned)
              (skip_asleep_turn fuel a p ps behind r e)
            ∙ Found-skip_asleep (suc fuel) fuel finds p ps (behind ++ (a ∷ [])) r w
                (omega (arith, l)) (omega (arith, l))))

  pub find_alive_lem : (fuel : ℕ) → Finds fuel
  unfolding find_alive next_state rotate sleepers destroyed
  find_alive_lem zero a waiting behind r w l = absurd (omega (arith, l))
  find_alive_lem (suc fuel) a [] behind r w l =
      rw (ap (λ n. n == pstate_alive) alive)
        (ap (λ ps. some (x ∷ ps, r)) (sym (append-nil (behind ++ (a ∷ [])))))
  find_alive_lem (suc fuel) a (p ∷ ps) behind r (w, ws) l = rw (waiting-alive p w) (
      Found-searched fuel (find_alive_lem fuel) a (p ∷ ps) behind r (w, ws) (omega (arith, l))
        (omega (arith, l)))

pub activate-turned :
    (s : Procs) (o : Option (List Process × Resources))
    → o >>= (λ (ring, r). activate s (rotate ring, r)) ≡ o >>= turned >>= activate s
activate-turned s none = refl
activate-turned s (some o) = refl

pub last_slice : (a : Process) → a.remaining_timeslices ≤ 1 → ltb 1 a.remaining_timeslices ≡ false
last_slice a l = ground (arith, l)

-- `pm_schedule` has run `x`: the process that ran keeps its context and stands behind `behind`, the
-- sleeping processes follow, and `x` has as many time slices as its priority.
abbrev pub scheduled :
    Procs → Process → List Process → Process → List Process → ℕ → Resources → Procs
scheduled s a waiting x behind context r = record s {
  ring =
      record x { remaining_timeslices = x.priority }
        ∷ (behind ++ (record a { context = context } ∷ []))
      ++ sleepers waiting;
  resources = r;
}

activated :
    (s : Procs) (a x : Process) (waiting behind : List Process) (context : ℕ) (o : Option Resources)
    → o
        >>= (λ r.
            some (x ∷ (behind ++ (record a { context = context } ∷ [])) ++ sleepers waiting, r))
        >>= activate s
      ≡ o >>= (λ r. some (scheduled s a waiting x behind context r, x.context))
unfolding activate
activated s a x waiting behind context none = refl
activated s a x waiting behind context (some r) = refl

-- The active process has used up its time slices, those behind it up to `x` are dead or asleep, and
-- `x` is alive. `pm_schedule`, with fuel of at least two more than those between, destroys the dead
-- processes that it passes, in the order of the ring; where one of these calls faults, so does
-- `pm_schedule`, and otherwise it ends and runs `x`: it returns the context of `x`, gives `x` as
-- many time slices as its priority, saves the context of the process that ran, and keeps the other
-- processes, of which those that sleep move behind the process that ran.
pub pm_schedule-Alive :
    (s : Procs) (a x : Process) (waiting behind : List Process) (context fuel : ℕ)
    → s.ring ≡ a ∷ waiting ++ (x ∷ behind)
    → a.remaining_timeslices ≤ 1
    → Waiting waiting
    → x.state ≡ pstate_alive
    → suc (length waiting) < fuel
    → pm_schedule fuel s context
      ≡ destroyed s.procs_head (record a { context = context }) waiting x behind s.resources
        >>= (λ r. some (scheduled s a waiting x behind context r, x.context))
unfolding pm_schedule pm_schedule_from
pm_schedule-Alive s a x waiting behind context fuel e l w alive f =
    let a' = record a { context = context } in
    ap (λ ring. pm_schedule_from fuel s ring context) e
    ∙ (rw (last_slice a l) (
          activate-turned s
            (find_alive s.procs_head fuel (a' ∷ waiting ++ (x ∷ behind), s.resources)))
        ∙ (ap (λ o. o >>= activate s)
              (find_alive_lem s.procs_head x alive fuel a' waiting behind s.resources w f)
            ∙ activated s a x waiting behind context
                (destroyed s.procs_head a' waiting x behind s.resources)))
