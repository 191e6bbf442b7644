-- ===== src/Mm/Heap/Chain.antt =====
-- The ring of headers as a list of addresses.
use potatoes.Prelude.{ℕ, ◌+◌, ◌≤◌, ◌<◌, ◌≡◌, refl, sym, ◌∙◌, List, [], ◌∷◌, ◌++◌, arith, length}
use mathlib.Core.Path.{subst}
use potatoes.Mm.Heap.{Header, header_size, Heap}

-- The links between neighbours, and room for the block of the first below the second.
abbrev pub Next : (ℕ → Header) → ℕ → ℕ → Type 0
Next mem a b = ((mem a).next ≡ b) × ((mem b).prev ≡ a) × (a + header_size + (mem a).size ≤ b)

-- From `a` the headers `bs` follow each other up to `z`, the last of them, or `a` itself.
abbrev pub Chain : (ℕ → Header) → ℕ → List ℕ → ℕ → Type 0
Chain mem a [] z = a ≡ z
Chain mem a (b ∷ bs) z = Next mem a b × Chain mem b bs z

pub Chain-le : (mem : ℕ → Header) (a : ℕ) (bs : List ℕ) (z : ℕ) → Chain mem a bs z → a ≤ z
Chain-le mem a [] z c = omega (arith, c)
Chain-le mem a (b ∷ bs) z (n, c) = omega (arith, n.2, Chain-le mem b bs z c)

pub Chain-append :
    (mem : ℕ → Header) (a : ℕ) (xs : List ℕ) (p : ℕ) (ys : List ℕ) (z : ℕ)
    → Chain mem a xs p
    → Chain mem p ys z
    → Chain mem a (xs ++ ys) z
Chain-append mem a [] p ys z e d = subst (λ q. Chain mem q ys z) (sym e) d
Chain-append mem a (x ∷ xs) p ys z (n, c) d = (n, Chain-append mem x xs p ys z c d)

-- The end of a chain that is cut in two.
pub Chain-split :
    (mem : ℕ → Header) (a : ℕ) (xs ys : List ℕ) (z : ℕ)
    → Chain mem a (xs ++ ys) z
    → (p : ℕ) × Chain mem a xs p × Chain mem p ys z
Chain-split mem a [] ys z c = (a, refl, c)
Chain-split mem a (x ∷ xs) ys z (n, c) =
    let (p, left, right) = Chain-split mem x xs ys z c in (p, (n, left), right)

-- `mem'` agrees with `mem` on what a chain from `a` to `z` reads.
pub record Agrees (mem mem' : ℕ → Header) (a z : ℕ) : Type 0 where
  pub next : (x : ℕ) → a ≤ x → x < z → (mem' x).next ≡ (mem x).next
  pub prev : (x : ℕ) → a < x → x ≤ z → (mem' x).prev ≡ (mem x).prev
  pub size : (x : ℕ) → a ≤ x → x < z → (mem' x).size ≡ (mem x).size

-- A chain is kept by writes outside of what it reads.
pub Chain-keep :
    (mem mem' : ℕ → Header) (a : ℕ) (bs : List ℕ) (z : ℕ)
    → Agrees mem mem' a z
    → Chain mem a bs z
    → Chain mem' a bs z
Chain-keep mem mem' a [] z same c = c
Chain-keep mem mem' a (b ∷ bs) z same ((e, f, room), c) =
    let le = Chain-le mem b bs z c in
    (
      (
        same.next a (omega arith) (omega (arith, le)) ∙ e,
        same.prev b (omega arith) le ∙ f,
        omega (arith, same.size a (omega arith) (omega (arith, le))),
      ),
      Chain-keep mem mem' b bs z
          (record {
            next = λ x h k. same.next x (omega arith) k;
            prev = λ x h k. same.prev x (omega arith) k;
            size = λ x h k. same.size x (omega arith) k;
          })
          c,
    )

-- The headers `bs` follow the start in order of their addresses, the end the last of them, with room
-- for each block, and the ring is closed.
pub record IsHeap (h : Heap) (bs : List ℕ) : Type 0 where
  pub chain : Chain h.mem h.start bs h.end
  pub apart : h.start < h.end
  pub closed_next : (h.mem h.end).next ≡ h.start
  pub closed_prev : (h.mem h.start).prev ≡ h.end
  pub small : h.end + header_size ≤ 0x1_0000_0000
  pub names : (a : ℕ) → length (h.mem a).name ≡ 32
