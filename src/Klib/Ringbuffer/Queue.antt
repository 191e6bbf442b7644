-- ===== src/Klib/Ringbuffer/Queue.antt =====
-- The bytes that a ring buffer holds, oldest first, and its representation invariant.
use potatoes.Prelude.{
  ℕ, zero, suc, ◌+◌, ◌-◌, ◌%◌, ◌^◌, ◌≤◌, ◌<◌, ◌≡◌, ◌≢◌, refl, sym, ap, ap₂, ◌∙◌, ◌⊎◌, inl, inr,
  List, [], ◌∷◌, ◌++◌, arith, length, get_or, set, get_or-set,
}
use native.Mathlib.Nat.{mod-eq_of_lt, mod-eq-sub-mod, mod-add-mod, mod-mod}
use native.Mathlib.Decide.{dec_lt}
use potatoes.Klib.Ringbuffer.{RingFifo}

-- The `n` bytes from position `k` on, each position taken round the ring of `m` cells.
abbrev pub slice : List ℕ → ℕ → ℕ → ℕ → List ℕ
slice bs m k zero = []
slice bs m k (suc n) = get_or bs (k % m) 0 ∷ slice bs m (k + 1) n

abbrev pub contents : RingFifo → List ℕ
contents f = slice f.cells f.size f.start f.len

-- The bound on the size keeps the `sint32` counts of `rf_write` and `rf_read` from overflowing.
pub record IsValid (f : RingFifo) : Type 0 where
  pub storage : f.size ≤ length f.cells
  pub pos_size : 0 < f.size
  pub small : f.size < 2 ^ 31
  pub start_in : f.start < f.size
  pub len_in : f.len ≤ f.size
  pub end_at : f.end ≡ (f.start + f.len) % f.size

pub length-slice : (bs : List ℕ) (m k n : ℕ) → length (slice bs m k n) ≡ n
length-slice bs m k zero = refl
length-slice bs m k (suc n) = ap suc (length-slice bs m (k + 1) n)

-- Once round the ring is no step at all.
pub mod_once : (a m : ℕ) → 0 < m → a < m + m → (a < m) × (a % m ≡ a) ⊎ (m ≤ a) × (a % m ≡ a - m)
mod_once a m p h = elim (dec_lt a m) [
  | yes q ↦ inl (q, mod-eq_of_lt q)
  | no q ↦
      inr (omega arith, mod-eq-sub-mod {n = a} {m = m} (omega arith) ∙ mod-eq_of_lt (omega arith))
]

-- Two positions less than a whole round apart are different cells.
pub apart : (k i j m : ℕ) → k < m → i < j → j < m → (k + i) % m ≢ (k + j) % m
apart k i j m h p q = omega (
  arith,
  mod_once (k + i) m (omega arith) (omega arith),
  mod_once (k + j) m (omega arith) (omega arith),
)

slice-end :
    (bs : List ℕ) (m k n : ℕ)
    → slice bs m k (suc n) ≡ slice bs m k n ++ (get_or bs ((k + n) % m) 0 ∷ [])
slice-end bs m k zero = ap (λ t. get_or bs (t % m) 0 ∷ []) (omega arith)
slice-end bs m k (suc n) =
    ap (λ t. get_or bs (k % m) 0 ∷ t)
      (slice-end bs m (k + 1) n
        ∙ ap (λ t. slice bs m (k + 1) n ++ (get_or bs (t % m) 0 ∷ [])) (omega arith))

slice-set :
    (bs : List ℕ) (m k n i v : ℕ)
    → i < length bs
    → ((j : ℕ) → j < n → (k + j) % m ≢ i)
    → slice (set bs i v) m k n ≡ slice bs m k n
slice-set bs m k zero i v h out = refl
slice-set bs m k (suc n) i v h out = ap₂ ◌∷◌ first (
    slice-set bs m (k + 1) n i v h
      λ j p e. out (j + 1) (omega arith) (ap (λ t. t % m) (omega arith) ∙ e))
  where
    first : get_or (set bs i v) (k % m) 0 ≡ get_or bs (k % m) 0
    first = ground (
      arith,
      get_or-set bs i (k % m) v 0 h,
      out 0 (omega arith),
      ap (λ t. t % m) (let e : k + 0 ≡ k = omega arith in e),
    )

-- A byte written just past the window joins it at its end.
pub slice-put :
    (bs : List ℕ) (m k n v : ℕ)
    → m ≤ length bs
    → k < m
    → n < m
    → slice (set bs ((k + n) % m) v) m k (suc n) ≡ slice bs m k n ++ (v ∷ [])
slice-put bs m k n v s h p =
    slice-end (set bs i v) m k n
    ∙ ap₂ (λ t u. t ++ (u ∷ [])) (slice-set bs m k n i v inside λ j q. apart k j n m h q p)
        (ground (arith, get_or-set bs i i v 0 inside))
  where
    i : ℕ
    i = (k + n) % m

    inside : i < length bs
    inside = omega arith

-- Positions that name the same cell head the same window.
slice-same_cell : (bs : List ℕ) (m k l n : ℕ) → k % m ≡ l % m → slice bs m k n ≡ slice bs m l n
slice-same_cell bs m k l zero e = refl
slice-same_cell bs m k l (suc n) e =
    ap₂ (λ t u. get_or bs t 0 ∷ u) e
      (slice-same_cell bs m (k + 1) (l + 1) n (next k ∙ ap (λ t. (t + 1) % m) e ∙ sym (next l)))
  where
    next : (a : ℕ) → (a + 1) % m ≡ (a % m + 1) % m
    next a = sym (mod-add-mod a m 1)

pub slice-next : (bs : List ℕ) (m k n : ℕ) → slice bs m ((k + 1) % m) n ≡ slice bs m (k + 1) n
slice-next bs m k n = slice-same_cell bs m ((k + 1) % m) (k + 1) n (mod-mod (k + 1) m)
