-- ===== src/Pm/Procs/Keeps.antt =====
-- The rings that `pm_schedule` makes, with the processes that they keep.
use potatoes.Prelude.{
  ℕ, zero, suc, ◌≤◌, ◌≡◌, refl, ◌∙◌, Bool, true, Option, some, none, List, [], ◌∷◌, ◌==◌, ltb,
  ◌>>=◌, Bool-cases, inl, inr, arith, ◌-◌,
}
use potatoes.Pm.Procs.{
  Process, Resources, Procs, pstate_alive, pstate_dead, pstate_stdinsleep, pm_destroy_thread,
  rotate, next_state, skip_dead, skip_asleep, find_alive, activate, pm_schedule_from, pm_schedule,
}
use mathlib.Core.Path.{subst}
use potatoes.Pm.Procs.Count.{count, living, IsProcs, has_pid, has_address, count-rotate}

-- What becomes of a ring when dead processes are taken out and the ring turns.
record Keeps (old new : List Process) : Type 0 where
  le : (f : Process → Bool) → count f new ≤ count f old
  living_eq : (f : Process → Bool) → count (living f) new ≡ count (living f) old

Keeps-refl : (ps : List Process) → Keeps ps ps
Keeps-refl ps = record { le = λ f. omega arith; living_eq = λ f. refl }

Keeps-trans : (ps qs rs : List Process) → Keeps ps qs → Keeps qs rs → Keeps ps rs
Keeps-trans ps qs rs k l = record {
  le = λ f. omega (arith, k.le f, l.le f);
  living_eq = λ f. l.living_eq f ∙ k.living_eq f;
}

rotate-Keeps : (ps : List Process) → Keeps ps (rotate ps)
rotate-Keeps ps = record {
  le = λ f. omega (arith, count-rotate f ps);
  living_eq = λ f. count-rotate (living f) ps;
}

dead-Keeps :
    (p q : Process) (ps : List Process)
    → (q.state == pstate_dead) ≡ true
    → Keeps (p ∷ q ∷ ps) (p ∷ ps)
dead-Keeps p q ps dead = record { le = λ f. omega arith; living_eq = λ f. ground (arith, dead) }

-- What a search that ends has made of the ring.
abbrev Kept : List Process → Option (List Process × Resources) → Type 0
Kept old none = Unit
Kept old (some (new, r')) = Keeps old new

Kept-trans :
    (ps qs : List Process) (r : Option (List Process × Resources))
    → Keeps ps qs
    → Kept qs r
    → Kept ps r
Kept-trans ps qs none k l = tt
Kept-trans ps qs (some (rs, r')) k l = Keeps-trans ps qs rs k l

Kept-bind :
    (ps : List Process) (r : Option (List Process × Resources))
    (f : List Process × Resources → Option (List Process × Resources))
    → Kept ps r
    → ((q : List Process × Resources) → Kept q.0 (f q))
    → Kept ps (r >>= f)
Kept-bind ps none f k l = tt
Kept-bind ps (some q) f k l = Kept-trans ps q.0 (f q) k (l q)

-- The same behind a step that may fail.
Kept-after :
    (ps qs : List Process) (o : Option Resources)
    (f : Resources → Option (List Process × Resources))
    → Keeps ps qs
    → ((r : Resources) → Kept qs (f r))
    → Kept ps (o >>= f)
Kept-after ps qs none f k l = tt
Kept-after ps qs (some r) f k l = Kept-trans ps qs (f r) k (l r)

skip_dead_cons-Kept :
    (head : ℕ) (p : Process) (ps : List Process) (r : Resources)
    → Kept (p ∷ ps) (skip_dead head (p ∷ ps, r))
unfolding skip_dead
skip_dead_cons-Kept head p [] r = elim (Bool-cases (p.state == pstate_dead)) [
  | inl dead ↦ rw dead tt
  | inr other ↦ rw other (Keeps-refl (p ∷ []))
]
skip_dead_cons-Kept head p (q ∷ ps) r = elim (Bool-cases (q.state == pstate_dead)) [
  | inl dead ↦ rw dead (
      Kept-after (p ∷ q ∷ ps) (p ∷ ps) (pm_destroy_thread head (p ∷ q ∷ ps) r q)
        (λ r'. skip_dead head (p ∷ ps, r')) (dead-Keeps p q ps dead)
        (skip_dead_cons-Kept head p ps))
  | inr other ↦ rw other (Keeps-refl (p ∷ q ∷ ps))
]

skip_dead-Kept : (head : ℕ) (s : List Process × Resources) → Kept s.0 (skip_dead head s)
unfolding skip_dead
skip_dead-Kept head ([], r) = tt
skip_dead-Kept head (p ∷ ps, r) = skip_dead_cons-Kept head p ps r

skip_asleep-Kept : (fuel : ℕ) (s : List Process × Resources) → Kept s.0 (skip_asleep fuel s)
unfolding skip_asleep
skip_asleep-Kept zero s = tt
skip_asleep-Kept (suc fuel) (ring, r') = elim (Bool-cases (next_state ring == pstate_stdinsleep)) [
  | inl asleep ↦ rw asleep (
      Kept-trans ring (rotate ring) (skip_asleep fuel (rotate ring, r')) (rotate-Keeps ring)
        (skip_asleep-Kept fuel (rotate ring, r')))
  | inr other ↦ rw other (Keeps-refl ring)
]

find_alive-Kept : (head fuel : ℕ) (s : List Process × Resources) → Kept s.0 (find_alive head fuel s)
unfolding find_alive skip_dead
find_alive-Kept head zero s = tt
find_alive-Kept head (suc fuel) (ring, r) = elim (Bool-cases (next_state ring == pstate_alive)) [
  | inl alive ↦ rw alive (Keeps-refl ring)
  | inr other ↦ rw other (
      Kept-bind ring (skip_dead head (ring, r) >>= skip_asleep fuel) (find_alive head fuel)
        (Kept-bind ring (skip_dead head (ring, r)) (skip_asleep fuel)
          (skip_dead-Kept head (ring, r)) (skip_asleep-Kept fuel))
        (find_alive-Kept head fuel))
]

abbrev Consistent : Option (Procs × ℕ) → Type 0
Consistent none = Unit
Consistent (some (s, context)) = IsProcs s

-- Only a ring that keeps the processes and fields that no test of `IsProcs` sees have changed.
Keeps-IsProcs :
    (s : Procs) (ring : List Process) (r' : Resources)
    → IsProcs s
    → Keeps s.ring ring
    → IsProcs (record s { ring = ring; resources = r' })
Keeps-IsProcs s ring r' v k = record {
  pids = λ pid. omega (arith, v.pids pid, k.le (has_pid pid));
  next = λ pid l. omega (arith, v.next pid l, k.le (has_pid pid));
  addresses = λ address. omega (arith, v.addresses address, k.le (has_address address));
  null = omega (arith, v.null, k.le (has_address 0));
  head = k.living_eq (has_address s.procs_head) ∙ v.head;
}

-- A change of the first process that no test of `IsProcs` sees.
first-IsProcs :
    (s : Procs) (p : Process) (ps : List Process) (context remaining : ℕ) (r' : Resources)
    → IsProcs (record s { ring = p ∷ ps })
    → IsProcs (record s {
      ring = record p { context = context; remaining_timeslices = remaining } ∷ ps;
      resources = r';
    })
first-IsProcs s p ps context remaining r' v = record {
  pids = v.pids;
  next = v.next;
  addresses = v.addresses;
  null = v.null;
  head = v.head;
}

activate-Consistent :
    (s : Procs) (ring : List Process) (r' : Resources)
    → IsProcs (record s { ring = ring; resources = r' })
    → Consistent (activate s (ring, r'))
unfolding activate
activate-Consistent s [] r' v = tt
activate-Consistent s (p ∷ ps) r' v =
    first-IsProcs (record s { resources = r' }) p ps p.context p.priority r' v

switch-Consistent :
    (s : Procs) (ring : List Process) (r : Option (List Process × Resources))
    → IsProcs (record s { ring = ring })
    → Kept ring r
    → Consistent (r >>= (λ (ring', r'). activate s (rotate ring', r')))
switch-Consistent s ring none v k = tt
switch-Consistent s ring (some (ring', r')) v k = activate-Consistent s (rotate ring') r' (
    Keeps-IsProcs (record s { ring = ring }) (rotate ring') r' v
      (Keeps-trans ring ring' (rotate ring') k (rotate-Keeps ring')))

pm_schedule_from-Consistent :
    (fuel : ℕ) (s : Procs) (ring : List Process) (context : ℕ)
    → IsProcs (record s { ring = ring })
    → s.ring ≡ ring
    → IsProcs s
    → Consistent (pm_schedule_from fuel s ring context)
unfolding pm_schedule_from
pm_schedule_from-Consistent fuel s [] context v e w = w
pm_schedule_from-Consistent fuel s (p ∷ ps) context v e w =
    elim (Bool-cases (ltb 1 p.remaining_timeslices)) [
      | inl keep ↦
          rw keep (first-IsProcs s p ps p.context (p.remaining_timeslices - 1) s.resources v)
      | inr switch ↦
          let ring = record p { context = context } ∷ ps in
          rw switch (
            switch-Consistent s ring (find_alive s.procs_head fuel (ring, s.resources))
              (first-IsProcs s p ps context p.remaining_timeslices s.resources v)
              (find_alive-Kept s.procs_head fuel (ring, s.resources)))
    ]

-- What `pm_schedule` leaves is consistent.
pub pm_schedule-Consistent :
    (fuel : ℕ) (s s' : Procs) (context context' : ℕ)
    → IsProcs s
    → pm_schedule fuel s context ≡ some (s', context')
    → IsProcs s'
unfolding pm_schedule
pm_schedule-Consistent fuel s s' context context' v e =
    subst Consistent e (pm_schedule_from-Consistent fuel s s.ring context v refl v)
