-- ===== src/Io/Monitors/Release.antt =====
-- `free_virt_monitor`.
use potatoes.Prelude.{
  ℕ, suc, ◌+◌, ◌-◌, ◌%◌, ◌^◌, ◌<◌, ◌≤◌, ◌≡◌, ◌≢◌, refl, sym, ap, ◌∙◌, true, not, ◌&&◌, Option, none,
  some, List, [], ◌∷◌, ◌++◌, false, ◌⊎◌, ◌==◌, ltb, if◌then◌else◌, ◌>>=◌, get_elem?, get_elem?-set,
  length-set, set, store, length, arith, Bool-cases, inl, inr, eq→==, ne→==, ==→eq, ==→ne,
}
use mathlib.Core.Path.{subst}
use potatoes.Io.Monitors.{
  Entry, Monitors, Request, set_focus, set_vmonitor, zero_entry, drop_last, free_last, free_other,
  free_virt_monitor,
}
use potatoes.Io.Monitors.Switch.{IsMonitors, entry_at}

-- `s'` is `s` without the monitor `i`: the last one stands in its place, and the others stay.
pub record Released (s : Monitors) (i : ℕ) (s' : Monitors) : Type 0 where
  pub monitors : IsMonitors s'
  pub count : suc s'.maxvmonitor ≡ s.maxvmonitor
  pub others :
      (j : ℕ) → j < s.maxvmonitor → j ≢ i → get_elem? s'.vmonitors j ≡ get_elem? s.vmonitors j
  pub moved : i ≢ s.maxvmonitor → get_elem? s'.vmonitors i ≡ get_elem? s.vmonitors s.maxvmonitor

-- What the release of the monitor `i` asks for, by the state `s'` that it leaves: where another
-- monitor takes its place, the process of that one gets the place; where it was the active one, the
-- focus goes to the process of the monitor that is the active one now.
pub record Asks (s : Monitors) (i : ℕ) (s' : Monitors) (requests : List Request) : Type 0 where
  pub moves : List Request
  pub focuses : List Request
  pub both : requests ≡ moves ++ focuses
  pub place :
      ((i ≡ s.maxvmonitor) × (moves ≡ []))
      ⊎ ((i ≢ s.maxvmonitor)
          × (last : Entry) × (get_elem? s.vmonitors s.maxvmonitor ≡ some last)
          × (moves ≡ set_vmonitor last.vm.pid i ∷ []))
  pub focus :
      ((s.active_monitor ≢ i) × (focuses ≡ []))
      ⊎ ((s.active_monitor ≡ i)
          × (e : Entry) × (get_elem? s'.vmonitors s'.active_monitor ≡ some e)
          × (focuses ≡ set_focus e.vm.pid ∷ []))

store-set : (xs : List Entry) (i : ℕ) (e : Entry) → i < length xs → store xs i e ≡ some (set xs i e)
store-set xs i e l = ap (λ b. if b then some (set xs i e) else none) (inside i (length xs) l)
  where
    inside : (a b : ℕ) → a < b → ltb a b ≡ true
    inside a b h = ground (arith, h)

-- The entry at another index, after a store.
set-other :
    (xs : List Entry) (i j : ℕ) (e : Entry)
    → i < length xs
    → i ≢ j
    → get_elem? (set xs i e) j ≡ get_elem? xs j
set-other xs i j e l n =
    get_elem?-set xs i j e l ∙ ap (λ b. if b then some e else get_elem? xs j) (ne→== i j n)

set-same : (xs : List Entry) (i : ℕ) (e : Entry) → i < length xs → get_elem? (set xs i e) i ≡ some e
set-same xs i e l =
    get_elem?-set xs i i e l ∙ ap (λ b. if b then some e else get_elem? xs i) (eq→== i i refl)

abbrev dropped : Monitors → Monitors
dropped s = record s {
  vmonitors = set s.vmonitors s.maxvmonitor zero_entry;
  maxvmonitor = s.maxvmonitor - 1;
}

drop_last_lem :
    (s : Monitors) (requests : List Request)
    → 0 < s.maxvmonitor
    → s.maxvmonitor < 2 ^ 16 - 1
    → s.maxvmonitor < length s.vmonitors
    → drop_last s requests ≡ some (dropped s, requests)
unfolding drop_last
drop_last_lem s requests l m r =
    ap
      (λ o. o >>= (λ vmonitors. some (
        record s { vmonitors = vmonitors; maxvmonitor = (s.maxvmonitor + (2 ^ 16 - 1)) % 2 ^ 16 },
        requests,
      )))
      (store-set s.vmonitors s.maxvmonitor zero_entry r)
    ∙ ap
        (λ n. some (
          record s { vmonitors = set s.vmonitors s.maxvmonitor zero_entry; maxvmonitor = n },
          requests,
        ))
        (omega (arith, l, m))

-- What is left of the array below the last entry.
left-Released :
    (s : Monitors) (i active : ℕ) (xs : List Entry)
    → IsMonitors s
    → 0 < s.maxvmonitor
    → length xs ≡ length s.vmonitors
    → active < s.maxvmonitor
    → ((j : ℕ) → j < s.maxvmonitor → j ≢ i → get_elem? xs j ≡ get_elem? s.vmonitors j)
    → i ≤ s.maxvmonitor
    → (i ≢ s.maxvmonitor → get_elem? xs i ≡ get_elem? s.vmonitors s.maxvmonitor)
    → Released s i (dropped (record s { vmonitors = xs; active_monitor = active }))
left-Released s i active xs v l e a same h moved = record {
  monitors = record {
    active = omega (arith, a);
    room = omega (arith, v.room, e, length-set {0} xs s.maxvmonitor zero_entry);
    small = omega (arith, v.small);
  };
  count = omega (arith, l);
  others = λ j k n.
      set-other xs s.maxvmonitor j zero_entry (omega (arith, v.room, e)) (λ q. omega (arith, q, k))
      ∙ same j k n;
  moved = λ n.
      set-other xs s.maxvmonitor i zero_entry (omega (arith, v.room, e)) (λ q. n (sym q)) ∙ moved n;
}

no_focus :
    (s : Monitors) (i : ℕ) (last : Entry)
    → (s.active_monitor == i) ≡ false
    → (if not (s.active_monitor == s.maxvmonitor) && s.active_monitor == i
        then set_focus last.vm.pid ∷ []
        else [])
      ≡ []
no_focus s i last other = rw other (ground (arith))

module _ (s : Monitors) (v : IsMonitors s) (l : 0 < s.maxvmonitor) where
  abbrev Frees : ℕ → Option (Monitors × List Request) → Type 0
  Frees i r =
      (s' : Monitors) × (requests : List Request) × (r ≡ some (s', requests))
      × Released s i s'
      × Asks s i s' requests

  last-Released :
      (active : ℕ)
      → active < s.maxvmonitor
      → Released s s.maxvmonitor (dropped (record s { active_monitor = active }))
  last-Released active a =
      left-Released s s.maxvmonitor active s.vmonitors v l refl a (λ j k n. refl) (omega arith)
        (λ n. absurd (n refl))

  free_last-Frees : Frees s.maxvmonitor (free_last s)
  unfolding free_last
  free_last-Frees = elim (Bool-cases (s.active_monitor == s.maxvmonitor)) [
    | inl same ↦
        let active : ℕ = (s.active_monitor + (2 ^ 16 - 1)) % 2 ^ 16 in
        let a : active < s.maxvmonitor =
          omega (arith, l, v.small, ==→eq s.active_monitor s.maxvmonitor same) in
        let (e, h) = entry_at s.vmonitors active (omega (arith, a, v.room)) in
        let requests = set_focus e.vm.pid ∷ [] in
        (
          dropped (record s { active_monitor = active }),
          requests,
          rw (same, h)
              (drop_last_lem (record s { active_monitor = active }) requests l v.small v.room),
          last-Released active a,
          record {
            moves = [];
            focuses = requests;
            both = refl;
            place = inl (refl, refl);
            focus = inr (
              ==→eq s.active_monitor s.maxvmonitor same,
              e,
              set-other s.vmonitors s.maxvmonitor active zero_entry v.room
                    (λ q. omega (arith, q, a))
                  ∙ h,
              refl,
            );
          },
        )
    | inr other ↦ (
      dropped s,
      [],
      rw other (drop_last_lem s [] l v.small v.room),
      last-Released s.active_monitor
          (omega (arith, v.active, ==→ne s.active_monitor s.maxvmonitor other)),
      record {
        moves = [];
        focuses = [];
        both = refl;
        place = inl (refl, refl);
        focus = inl (==→ne s.active_monitor s.maxvmonitor other, refl);
      },
    )
  ]

  free_other-Frees : (i : ℕ) → i < s.maxvmonitor → Frees i (free_other s i)
  unfolding free_other
  free_other-Frees i k =
      let (last, h) = entry_at s.vmonitors s.maxvmonitor v.room in
      let in_array : i < length s.vmonitors = omega (arith, k, v.room) in
      let active = if s.active_monitor == s.maxvmonitor then i else s.active_monitor in
      let xs = set s.vmonitors i last in
      let requests =
        set_vmonitor last.vm.pid i
        ∷ (if not (s.active_monitor == s.maxvmonitor) && s.active_monitor == i
            then set_focus last.vm.pid ∷ []
            else []) in
      let t = record s { vmonitors = xs; active_monitor = active } in
      (
        dropped t,
        requests,
        rw (h, store-set s.vmonitors i last in_array)
            (drop_last_lem t requests l v.small
              (omega (arith, v.room, length-set {0} s.vmonitors i last))),
        left-Released s i active xs v l (length-set {0} s.vmonitors i last)
            (ground (arith, v.active, k))
            (λ j m n. set-other s.vmonitors i j last in_array (λ q. n (sym q))) (omega (arith, k))
            (λ n. set-same s.vmonitors i last in_array ∙ sym h),
        record {
          moves = set_vmonitor last.vm.pid i ∷ [];
          focuses =
              if not (s.active_monitor == s.maxvmonitor) && s.active_monitor == i
              then set_focus last.vm.pid ∷ []
              else [];
          both = refl;
          place = inr (λ q. omega (arith, q, k), last, h, refl);
          focus = elim (Bool-cases (s.active_monitor == i)) [
            | inl same ↦
                let e = ==→eq s.active_monitor i same in
                let away = ne→== s.active_monitor s.maxvmonitor (λ q. omega (arith, q, e, k)) in
                inr (
                  e,
                  last,
                  rw (away, e)
                      (set-other xs s.maxvmonitor i zero_entry
                          (omega (arith, v.room, length-set {0} s.vmonitors i last))
                          (λ q. omega (arith, q, k))
                        ∙ set-same s.vmonitors i last in_array),
                  rw (away, same) refl,
                )
            | inr other ↦ inl (==→ne s.active_monitor i other, no_focus s i last other)
          ];
        },
      )

-- `free_virt_monitor` of a monitor of the array, where it is not the only one, takes it from the
-- array: the last monitor stands in its place, every other one stays where it is, and the active
-- monitor is one of those that are left.
pub free_virt_monitor-Released :
    (s : Monitors) (i : ℕ)
    → IsMonitors s
    → 0 < s.maxvmonitor
    → i ≤ s.maxvmonitor
    → (s' : Monitors) × (requests : List Request) × (free_virt_monitor s i ≡ some (s', requests))
      × Released s i s'
      × Asks s i s' requests
unfolding free_virt_monitor
free_virt_monitor-Released s i v l k = elim (Bool-cases (i == s.maxvmonitor)) [
  | inl same ↦
      let e = sym (==→eq i s.maxvmonitor same) in
      let (s', requests, ran, r, asks) = free_last-Frees s v l in
      (
        s',
        requests,
        rw same ran,
        subst (λ n. Released s n s') e r,
        subst (λ n. Asks s n s' requests) e asks,
      )
  | inr other ↦ rw other (free_other-Frees s v l i (omega (arith, k, ==→ne i s.maxvmonitor other)))
]
