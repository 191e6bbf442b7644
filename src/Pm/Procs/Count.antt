-- ===== src/Pm/Procs/Count.antt =====
-- How many processes of the ring pass a test: no order matters to it, so that the ring may turn.
use potatoes.Prelude.{
  ℕ, ◌+◌, ◌≤◌, ◌≡◌, refl, ap, ap₂, Bool, not, ◌&&◌, some, List, [], ◌∷◌, ◌++◌, ◌==◌, if◌then◌else◌,
  Bool-cases, inl, inr, arith,
}
use potatoes.Pm.Procs.{Process, Procs, pstate_dead, rotate, update_proc}
use potatoes.Pm.Procs.Create.{insert_after}

abbrev pub count : (Process → Bool) → List Process → ℕ
count f [] = 0
count f (p ∷ ps) = (if f p then 1 else 0) + count f ps

abbrev pub living : (Process → Bool) → Process → Bool
living f p = f p && not (p.state == pstate_dead)

abbrev pub has_pid : ℕ → Process → Bool
has_pid pid p = p.pid == pid

abbrev pub has_address : ℕ → Process → Bool
has_address address p = p.address == address

-- The processes have distinct numbers below `next_pid` and distinct addresses other than NULL, and
-- `procs_head` is one of them that is not dead.
pub record IsProcs (s : Procs) : Type 0 where
  pub pids : (pid : ℕ) → count (has_pid pid) s.ring ≤ 1
  pub next : (pid : ℕ) → s.next_pid ≤ pid → count (has_pid pid) s.ring ≡ 0
  pub addresses : (address : ℕ) → count (has_address address) s.ring ≤ 1
  pub null : count (has_address 0) s.ring ≡ 0
  pub head : count (living (has_address s.procs_head)) s.ring ≡ 1

pub count-append :
    (f : Process → Bool) (ps qs : List Process) → count f (ps ++ qs) ≡ count f ps + count f qs
count-append f [] qs = omega arith
count-append f (p ∷ ps) qs = ground (arith, count-append f ps qs)

pub count-rotate : (f : Process → Bool) (ps : List Process) → count f (rotate ps) ≡ count f ps
unfolding rotate
count-rotate f [] = refl
count-rotate f (p ∷ ps) = ground (arith, count-append f ps (p ∷ []))

pub count-insert_after :
    (head : ℕ) (proc : Process) (ps : List Process)
    → 1 ≤ count (has_address head) ps
    → (r : List Process) × (insert_after head proc ps ≡ some r)
      × ((f : Process → Bool) → count f r ≡ count f (proc ∷ ps))
unfolding insert_after
count-insert_after head proc [] l = absurd (omega (arith, l))
count-insert_after head proc (p ∷ ps) l = elim (Bool-cases (p.address == head)) [
  | inl same ↦ rw same (p ∷ proc ∷ ps, refl, λ f. omega arith)
  | inr other ↦
      let (r, e, c) = count-insert_after head proc ps (omega (arith, rw other at l)) in
      rw (other, e) (p ∷ r, refl, λ f. omega (arith, c f))
]

-- An assignment that the test does not see.
pub count-update_proc :
    (f : Process → Bool) (address : ℕ) (g : Process → Process) (ps : List Process)
    → ((p : Process) → f (g p) ≡ f p)
    → count f (update_proc address g ps) ≡ count f ps
unfolding update_proc
count-update_proc f address g [] same = refl
count-update_proc f address g (p ∷ ps) same =
    ap₂ ◌+◌
      (ap (λ b. if b then 1 else 0)
        (elim (Bool-cases (p.address == address)) [ inl e ↦ rw e (same p) | inr e ↦ rw e refl ]))
      (count-update_proc f address g ps same)
