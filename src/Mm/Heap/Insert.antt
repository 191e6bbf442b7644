-- ===== src/Mm/Heap/Insert.antt =====
-- A new header between two neighbours.
use potatoes.Prelude.{
  ℕ, true, ◌+◌, ◌-◌, ◌≤◌, ◌<◌, ◌≡◌, ◌≢◌, refl, sym, ap, ◌∙◌, List, ◌∷◌, ◌++◌, some, ltb, arith,
  length, take, drop, replicate, set, length-append, length-take, length-drop, length-replicate,
  length-set,
}
use mathlib.Core.Path.{subst}
use native.Mathlib.Decide.{ℕ_discrete}
use potatoes.Klib.Strings.Text.{IsText, cstr}
use potatoes.Klib.Strings.Copy.{strncpy-take}
use potatoes.Mm.Heap.{Header, header_size, write, set_name, link}
use potatoes.Mm.Heap.Chain.{Next, Chain, Agrees, Chain-keep, Chain-append}

-- The name of a text fits, cut to 31 bytes.
pub set_name-length :
    (old s rest : List ℕ)
    → length old ≡ 32
    → IsText s
    → (new_name : List ℕ) × (set_name old (cstr s rest) ≡ some new_name) × (length new_name ≡ 32)
unfolding set_name
set_name-length old s rest size t =
    let copy : List ℕ = take 31 s ++ (replicate (31 - length s) 0 ++ drop 31 old) in
    let long : length copy ≡ 32 = omega (
      arith,
      length-append {0} (take 31 s) (replicate (31 - length s) 0 ++ drop 31 old),
      length-append {0} (replicate (31 - length s) 0) (drop 31 old),
      length-take {0} 31 s,
      length-drop {0} 31 old,
      length-replicate {0} {A = ℕ} (31 - length s) 0,
    ) in
    let room : ltb 31 (length copy) ≡ true = ground arith in
    (
      set copy 31 0,
      rw (strncpy-take s rest old 31 t (omega arith), room) refl,
      length-set copy 31 0 ∙ long,
    )

-- `mem'` is `mem` but for the links around the new header at `q` between `p` and `n`.
pub record Kept (mem mem' : ℕ → Header) (p n q : ℕ) (new_header : Header) : Type 0 where
  pub next : (x : ℕ) → x ≢ p → x ≢ q → (mem' x).next ≡ (mem x).next
  pub prev : (x : ℕ) → x ≢ n → x ≢ q → (mem' x).prev ≡ (mem x).prev
  pub size : (x : ℕ) → x ≢ q → (mem' x).size ≡ (mem x).size
  pub new_size : (mem' q).size ≡ new_header.size
  pub names :
      ((x : ℕ) → length (mem x).name ≡ 32)
      → length new_header.name ≡ 32
      → (x : ℕ) → length (mem' x).name ≡ 32

module _ (mem : ℕ → Header) (a : ℕ) (xs : List ℕ) (p n : ℕ) (ys : List ℕ) (z q : ℕ)
    (new_header : Header) (left : Chain mem a xs p) (between : Next mem p n)
    (right : Chain mem n ys z) (at : q ≡ p + header_size + (mem p).size)
    (room : q + header_size + new_header.size ≤ n) (to_prev : new_header.prev ≡ p)
    (to_next : new_header.next ≡ n) where
  filled : ℕ → Header
  filled = write mem q new_header

  -- The memory after `heap_setup_block`, with the header before the new one.
  linked : ℕ → ℕ → Header
  unfolding filled
  linked before =
      let m1 : ℕ → Header = write filled before (record (filled before) { next = q }) in
      write m1 n (record (m1 n) { prev = q })

  before_n : (filled n).prev ≡ p
  unfolding filled
  before_n = ground (arith, between)

  below_p : (x : ℕ) → a ≤ x → x < p → linked p x ≡ mem x
  unfolding linked filled
  below_p x h k = ground (arith, between)

  at_p_prev : (linked p p).prev ≡ (mem p).prev
  unfolding linked filled
  at_p_prev = ground (arith, between)

  behind_n : (x : ℕ) → n < x → linked p x ≡ mem x
  unfolding linked filled
  behind_n x h = ground (arith, between)

  at_n_next : (linked p n).next ≡ (mem n).next
  unfolding linked filled
  at_n_next = ground (arith, between)

  at_n_size : (linked p n).size ≡ (mem n).size
  unfolding linked filled
  at_n_size = ground (arith, between)

  joined_p : Next (linked p) p q
  unfolding linked filled
  joined_p = (ground (arith, between), ground (arith, between), ground (arith, between))

  joined_n : Next (linked p) q n
  unfolding linked filled
  joined_n = (ground (arith, between), ground (arith, between), ground (arith, between))

  left-Agrees : Agrees mem (linked p) a p
  left-Agrees = record {
    next = λ x h k. ap (λ (r : Header). r.next) (below_p x h k);
    prev = λ x h k. elim (ℕ_discrete x p) [
      | yes e ↦ rw e at_p_prev
      | no ne ↦ ap (λ (r : Header). r.prev) (below_p x (omega arith) (omega arith))
    ];
    size = λ x h k. ap (λ (r : Header). r.size) (below_p x h k);
  }

  right-Agrees : Agrees mem (linked p) n z
  right-Agrees = record {
    next = λ x h k. elim (ℕ_discrete x n) [
      | yes e ↦ rw e at_n_next
      | no ne ↦ ap (λ (r : Header). r.next) (behind_n x (omega arith))
    ];
    prev = λ x h k. ap (λ (r : Header). r.prev) (behind_n x h);
    size = λ x h k. elim (ℕ_discrete x n) [
      | yes e ↦ rw e at_n_size
      | no ne ↦ ap (λ (r : Header). r.size) (behind_n x (omega arith))
    ];
  }

  linked-Chain : Chain (linked p) a (xs ++ (q ∷ n ∷ ys)) z
  linked-Chain =
      Chain-append (linked p) a xs p (q ∷ n ∷ ys) z
        (Chain-keep mem (linked p) a xs p left-Agrees left)
        (joined_p, (joined_n, Chain-keep mem (linked p) n ys z right-Agrees right))

  inserted-linked : link (write mem q new_header) n q ≡ linked p
  unfolding linked filled
  inserted-linked = ap linked before_n

  -- With the new header between its neighbours, the chain has one address more.
  pub inserted-Chain : Chain (link (write mem q new_header) n q) a (xs ++ (q ∷ n ∷ ys)) z
  inserted-Chain = subst (λ m. Chain m a (xs ++ (q ∷ n ∷ ys)) z) (sym inserted-linked) linked-Chain

  kept_next : (x : ℕ) → x ≢ p → x ≢ q → (linked p x).next ≡ (mem x).next
  unfolding linked filled
  kept_next x h k = ground (arith, between)

  kept_prev : (x : ℕ) → x ≢ n → x ≢ q → (linked p x).prev ≡ (mem x).prev
  unfolding linked filled
  kept_prev x h k = ground (arith, between)

  kept_size : (x : ℕ) → x ≢ q → (linked p x).size ≡ (mem x).size
  unfolding linked filled
  kept_size x h = ground (arith, between)

  new_size : (linked p q).size ≡ new_header.size
  unfolding linked filled
  new_size = ground (arith, between)

  kept_names :
      ((x : ℕ) → length (mem x).name ≡ 32)
      → length new_header.name ≡ 32
      → (x : ℕ) → length (linked p x).name ≡ 32
  unfolding linked filled
  kept_names h k x = ground (arith, between, h x, h p, h n, k)

  -- What the insertion leaves as it was, and what it adds.
  pub inserted-Kept : Kept mem (link (write mem q new_header) n q) p n q new_header
  inserted-Kept =
      subst (λ m. Kept mem m p n q new_header) (sym inserted-linked)
        (record {
          next = kept_next;
          prev = kept_prev;
          size = kept_size;
          new_size = new_size;
          names = kept_names;
        })
