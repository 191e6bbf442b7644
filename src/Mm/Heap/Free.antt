-- ===== src/Mm/Heap/Free.antt =====
-- `heap_free` of a block of the heap.
use potatoes.Prelude.{
  ℕ, ◌+◌, ◌^◌, ◌≤◌, ◌<◌, ◌≡◌, ◌≢◌, refl, sym, ap, ◌∙◌, true, List, ◌∷◌, ◌++◌, ◌==◌, arith, length,
  eq→==, ne→==,
}
use mathlib.Core.Path.{subst}
use potatoes.Mm.Heap.{Header, header_size, Heap, write, minus, unlink, free_header, heap_free}
use potatoes.Mm.Heap.Chain.{Next, Chain, Chain-keep, Chain-append, Chain-le, Chain-split, IsHeap}

module _ (mem : ℕ → Header) (a : ℕ) (xs : List ℕ) (p q n : ℕ) (ys : List ℕ) (z : ℕ)
    (left : Chain mem a xs p) (to : Next mem p q) (from : Next mem q n)
    (right : Chain mem n ys z) where
  -- The memory after the header at `q` is taken out.
  unlinked : ℕ → Header
  unlinked =
      let m1 : ℕ → Header = write mem p (record (mem p) { next = n }) in
      write m1 n (record (m1 n) { prev = p })

  below_p : (x : ℕ) → x < p → unlinked x ≡ mem x
  unfolding unlinked
  below_p x h = ground (arith, to, from)

  behind_n : (x : ℕ) → n < x → unlinked x ≡ mem x
  unfolding unlinked
  behind_n x h = ground (arith, to, from)

  at_p_prev : (unlinked p).prev ≡ (mem p).prev
  unfolding unlinked
  at_p_prev = ground (arith, to, from)

  at_n_next : (unlinked n).next ≡ (mem n).next
  unfolding unlinked
  at_n_next = ground (arith, to, from)

  kept_next : (x : ℕ) → x ≢ p → (unlinked x).next ≡ (mem x).next
  unfolding unlinked
  kept_next x h = ground (arith, to, from)

  kept_prev : (x : ℕ) → x ≢ n → (unlinked x).prev ≡ (mem x).prev
  unfolding unlinked
  kept_prev x h = ground (arith, to, from)

  kept_size : (x : ℕ) → (unlinked x).size ≡ (mem x).size
  unfolding unlinked
  kept_size x = ground (arith, to, from)

  kept_names : ((x : ℕ) → length (mem x).name ≡ 32) → (x : ℕ) → length (unlinked x).name ≡ 32
  unfolding unlinked
  kept_names h x = ground (arith, to, from, h x, h p, h n)

  joined : Next unlinked p n
  unfolding unlinked
  joined = (ground (arith, to, from), ground (arith, to, from), ground (arith, to, from))

  unlinked-Chain : Chain unlinked a (xs ++ (n ∷ ys)) z
  unlinked-Chain =
      Chain-append unlinked a xs p (n ∷ ys) z
        (Chain-keep mem unlinked a xs p
          (record {
            next = λ x h k. kept_next x (λ e. absurd (omega arith));
            prev = λ x h k. kept_prev x (λ e. absurd (omega (arith, to.2, from.2)));
            size = λ x h k. kept_size x;
          })
          left)
        (
          joined,
          Chain-keep mem unlinked n ys z
              (record {
                next = λ x h k. kept_next x (λ e. absurd (omega (arith, to.2, from.2)));
                prev = λ x h k. kept_prev x (λ e. absurd (omega arith));
                size = λ x h k. kept_size x;
              })
              right,
        )

  unlink-unlinked : unlink mem p q ≡ unlinked
  unfolding unlinked
  unlink-unlinked = rw (ne→== q p (λ e. absurd (omega (arith, to.2))), from.0, to.1) refl

  heap_free-unlinked : q + header_size < 2 ^ 32 → heap_free mem (q + header_size) ≡ unlinked
  unfolding heap_free unlinked
  heap_free-unlinked small =
      let this : minus (q + header_size) header_size ≡ q = omega arith in
      let linked : ((mem (mem q).prev).next == q) ≡ true =
        eq→== _ _ (ap (λ b. (mem b).next) to.1 ∙ to.0) in
      ap (free_header mem) this
      ∙ (rw linked refl ∙ (ap (λ b. unlink mem b q) to.1 ∙ unlink-unlinked))

-- `heap_free` of a block of the heap takes its header out of the ring, which stays well-formed; no
-- block changes its size, and the others stay in the ring in their order.
pub heap_free-IsHeap :
    {h : Heap} (xs : List ℕ) (q n : ℕ) (ys : List ℕ)
    → IsHeap h (xs ++ (q ∷ n ∷ ys))
    → IsHeap (record h { mem = heap_free h.mem (q + header_size) }) (xs ++ (n ∷ ys))
      × ((x : ℕ) → (heap_free h.mem (q + header_size) x).size ≡ (h.mem x).size)
heap_free-IsHeap {h} xs q n ys v =
    let (p, left, (to, (from, right))) = Chain-split h.mem h.start xs (q ∷ n ∷ ys) h.end v.chain in
    let low = Chain-le h.mem h.start xs p left in
    let high = Chain-le h.mem n ys h.end right in freed p left to from right low high
  where
    freed :
        (p : ℕ)
        → Chain h.mem h.start xs p
        → Next h.mem p q
        → Next h.mem q n
        → Chain h.mem n ys h.end
        → h.start ≤ p
        → n ≤ h.end
        → IsHeap (record h { mem = heap_free h.mem (q + header_size) }) (xs ++ (n ∷ ys))
          × ((x : ℕ) → (heap_free h.mem (q + header_size) x).size ≡ (h.mem x).size)
    freed p left to from right low high =
        subst
          (λ m.
            IsHeap (record h { mem = m }) (xs ++ (n ∷ ys))
            × ((x : ℕ) → (m x).size ≡ (h.mem x).size))
          (sym (
            heap_free-unlinked h.mem h.start xs p q n ys h.end left to from right
              (omega (arith, from.2, v.small))))
          (
            record {
              chain = unlinked-Chain h.mem h.start xs p q n ys h.end left to from right;
              apart = v.apart;
              closed_next =
                  kept_next h.mem h.start xs p q n ys h.end left to from right h.end
                    (λ e. absurd (omega (arith, to.2, from.2)))
                  ∙ v.closed_next;
              closed_prev =
                  kept_prev h.mem h.start xs p q n ys h.end left to from right h.start
                    (λ e. absurd (omega (arith, to.2, from.2)))
                  ∙ v.closed_prev;
              small = v.small;
              names = kept_names h.mem h.start xs p q n ys h.end left to from right v.names;
            },
            kept_size h.mem h.start xs p q n ys h.end left to from right,
          )
