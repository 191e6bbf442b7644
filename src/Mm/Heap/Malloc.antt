-- ===== src/Mm/Heap/Malloc.antt =====
-- `heap_mallocn` on a heap with a hole that is large enough.
use potatoes.Prelude.{
  ℕ, suc, ◌+◌, ◌%◌, ◌^◌, ◌≤◌, ◌<◌, ◌≡◌, ◌≢◌, ◌⊎◌, inl, inr, refl, ap, ◌∙◌, List, ◌∷◌, ◌++◌, none,
  some, ◌>>=◌, arith, length,
}
use mathlib.Core.Path.{subst}
use potatoes.Klib.Strings.Text.{IsText, cstr}
use potatoes.Mm.Paging.{Paging}
use potatoes.Mm.Heap.{
  Header, header_size, Heap, write, link, hole, position, set_name, heap_setup_block, place_block,
  use_hole, grow_heap, heap_mallocn,
}
use potatoes.Mm.Heap.Chain.{Next, Chain, Chain-le, Chain-split, IsHeap}
use potatoes.Mm.Heap.Search.{NoBetter, worst_fit-Worst}
use potatoes.Mm.Heap.Insert.{Kept, set_name-length, inserted-Chain, inserted-Kept}

-- A block of `size` bytes at `r` has been put into the largest hole, which is that below `n`: its
-- header is new in the ring, and no other block has changed its size.
pub record Placed (h : Heap) (bs : List ℕ) (size : ℕ) (h' : Heap) (r : ℕ) : Type 0 where
  pub before : List ℕ
  pub n : ℕ
  pub behind : List ℕ
  pub q : ℕ
  pub split : bs ≡ before ++ (n ∷ behind)
  pub at : r ≡ q + header_size
  pub valid : IsHeap h' (before ++ (q ∷ n ∷ behind))
  pub new_size : (h'.mem q).size ≡ size
  pub sizes : (x : ℕ) → x ≢ q → (h'.mem x).size ≡ (h.mem x).size
  pub largest : NoBetter h.mem (size + header_size) (hole h.mem n) bs

module _ {h : Heap} {bs : List ℕ} (v : IsHeap h bs) (size : ℕ) (small : size + header_size < 2 ^ 32)
    (name rest : List ℕ) (t : IsText name) where
  module _ (xs : List ℕ) (n : ℕ) (ys : List ℕ) (p q : ℕ) (new_name : List ℕ)
      (left : Chain h.mem h.start xs p) (between : Next h.mem p n) (right : Chain h.mem n ys h.end)
      (at : q ≡ p + header_size + (h.mem p).size) (room : q + header_size + size ≤ n) where
    abbrev new_header : Header
    new_header = record { prev = (h.mem n).prev; next = n; name = new_name; size = size }

    abbrev grown : Heap
    grown = record h { mem = link (write h.mem q new_header) n q }

    kept : Kept h.mem grown.mem p n q new_header
    kept =
        inserted-Kept h.mem h.start xs p n ys h.end q new_header left between right at room
          between.1 refl

    grown-IsHeap : length new_name ≡ 32 → IsHeap grown (xs ++ (q ∷ n ∷ ys))
    grown-IsHeap long =
        let low = Chain-le h.mem h.start xs p left in
        let high = Chain-le h.mem n ys h.end right in
        record {
          chain =
              inserted-Chain h.mem h.start xs p n ys h.end q new_header left between right at room
                between.1 refl;
          apart = v.apart;
          closed_next =
              kept.next h.end (λ e. absurd (omega (arith, between.2))) (λ e. absurd (omega arith))
              ∙ v.closed_next;
          closed_prev =
              kept.prev h.start (λ e. absurd (omega (arith, between.2))) (λ e. absurd (omega arith))
              ∙ v.closed_prev;
          small = v.small;
          names = kept.names v.names long;
        }

    placed :
        bs ≡ xs ++ (n ∷ ys)
        → position h.mem n ≡ q
        → set_name (h.mem q).name (cstr name rest) ≡ some new_name
        → length new_name ≡ 32
        → NoBetter h.mem (size + header_size) (hole h.mem n) bs
        → (h' : Heap) × (r : ℕ) × (place_block h size (cstr name rest) n ≡ some (h', r))
          × Placed h bs size h' r
    unfolding place_block heap_setup_block
    placed split here named long largest =
        let high = Chain-le h.mem n ys h.end right in
        (
          grown,
          (q + header_size) % 2 ^ 32,
          ap
                (λ at.
                  heap_setup_block h.mem n at size (cstr name rest)
                  >>= (λ mem. some (record h { mem = mem }, (at + header_size) % 2 ^ 32)))
                here
              ∙ rw named refl,
          record {
            before = xs;
            n = n;
            behind = ys;
            q = q;
            split = split;
            at = omega (arith, room, high, v.small);
            valid = grown-IsHeap long;
            new_size = kept.new_size;
            sizes = kept.size;
            largest = largest;
          },
        )

  place_block-Placed :
      (xs : List ℕ) (n : ℕ) (ys : List ℕ)
      → bs ≡ xs ++ (n ∷ ys)
      → size + header_size ≤ hole h.mem n
      → NoBetter h.mem (size + header_size) (hole h.mem n) bs
      → (h' : Heap) × (r : ℕ) × (place_block h size (cstr name rest) n ≡ some (h', r))
        × Placed h bs size h' r
  place_block-Placed xs n ys split fits largest =
      let (p, left, (between, right)) =
        Chain-split h.mem h.start xs (n ∷ ys) h.end
          (subst (λ l. Chain h.mem h.start l h.end) split v.chain) in
      let high = Chain-le h.mem n ys h.end right in
      let q : ℕ = p + header_size + (h.mem p).size in
      let here : position h.mem n ≡ q =
        ap (λ b. (b + header_size + (h.mem b).size) % 2 ^ 32) between.1
        ∙ omega (arith, between.2, high, v.small) in
      let (new_name, named, long) = set_name-length (h.mem q).name name rest (v.names q) t in
      placed xs n ys p q new_name left between right refl
        (omega (arith, fits, here, between.2, high, v.small)) split here named long largest

  -- On a well-formed heap `heap_mallocn` of a size below 2 ^ 32 - 44 that some hole can take does not
  -- fault: it puts a block of that size into the largest hole, its header joins the ring, which stays
  -- well-formed, so that no two blocks overlap, and no other block changes its size. Where the search
  -- finds none, no hole is large enough.
  pub heap_mallocn-Placed :
      (attempts fuel : ℕ) (s : Paging)
      → length bs < fuel
      → ((h' : Heap) × (r : ℕ) × (heap_mallocn (suc attempts) fuel size (cstr name rest) h s
            ≡ some (h', s, some r))
          × Placed h bs size h' r)
        ⊎ NoBetter h.mem (size + header_size) 0 bs
  unfolding heap_mallocn
  heap_mallocn-Placed attempts fuel s enough =
      let (r, ran, found) =
        worst_fit-Worst h.mem size small h.end (h.mem h.end).next refl bs fuel h.start 0 none
          v.chain (omega (arith, v.closed_next)) enough in
      elim found [
        | inl (same, all) ↦ inr all
        | inr (xs, n, ys, split, is_n, fits, larger, all) ↦
            let (h', p, done, placed) = place_block-Placed xs n ys split fits all in
            inl (
              h',
              p,
              ap
                    (λ o.
                      o
                      >>= use_hole h s size (cstr name rest) (
                          grow_heap fuel size (heap_mallocn attempts fuel size (cstr name rest)) h
                            s))
                    (ran ∙ ap some is_n)
                  ∙ ap (λ o. o >>= (λ (h2, p2). some (h2, s, some p2))) done,
              placed,
            )
      ]
