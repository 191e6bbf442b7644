-- ===== src/Fs/Dir/Paths.antt =====
-- The file name in a path.
use potatoes.Prelude.{
  ℕ, zero, suc, ◌+◌, ◌-◌, ◌≤◌, ◌<◌, ◌≡◌, ◌≢◌, refl, ap, ap₂, ◌∙◌, List, [], ◌∷◌, ◌++◌, append_assoc,
  some, arith, length, length-append, length-replicate, replicate, take, drop, get_elem?, ne→==,
}
use potatoes.Klib.Memory.{bzero-replicate, memcpy-take}
use potatoes.Klib.Strings.Text.{IsText, cstr}
use potatoes.Klib.Strings.Length.{strlen-length}
use potatoes.Fs.Dir.{slash, last_delim, get_filename}

abbrev pub HasNoSlash : List ℕ → Type 0
HasNoSlash [] = Unit
HasNoSlash (c ∷ f) = (c ≢ slash) × HasNoSlash f

get_elem?-behind :
    (d : List ℕ) (c : ℕ) (g : List ℕ) (k i : ℕ)
    → i ≡ length d + suc k
    → get_elem? (d ++ (c ∷ g)) i ≡ get_elem? g k
get_elem?-behind [] c g k zero e = absurd (omega arith)
get_elem?-behind [] c g k (suc i) e = ap (get_elem? g) (omega arith)
get_elem?-behind (x ∷ d) c g k zero e = absurd (omega arith)
get_elem?-behind (x ∷ d) c g k (suc i) e = get_elem?-behind d c g k i (omega arith)

get_elem?-at : (d : List ℕ) (c : ℕ) (g : List ℕ) → get_elem? (d ++ (c ∷ g)) (length d) ≡ some c
get_elem?-at [] c g = refl
get_elem?-at (x ∷ d) c g = get_elem?-at d c g

-- The elements of a name followed by anything.
get_elem?-name :
    (f r : List ℕ) (k : ℕ)
    → HasNoSlash f
    → k < length f
    → (c : ℕ) × (get_elem? (f ++ r) k ≡ some c) × (c ≢ slash)
get_elem?-name [] r k p h = absurd (omega arith)
get_elem?-name (c ∷ f) r zero p h = (c, refl, p.0)
get_elem?-name (c ∷ f) r (suc k) p h = get_elem?-name f r k p.1 (omega arith)

last_delim-slash :
    (d f r : List ℕ) (k i : ℕ)
    → HasNoSlash f
    → k ≤ length f
    → i ≡ suc (length d) + k
    → last_delim (d ++ (slash ∷ (f ++ r))) i ≡ some (length d)
unfolding last_delim
last_delim-slash d f r k zero p h e = absurd (omega arith)
last_delim-slash d f r zero (suc i) p h e =
    let here : i ≡ length d = omega arith in
    rw (ap (get_elem? (d ++ (slash ∷ (f ++ r)))) here ∙ get_elem?-at d slash (f ++ r))
      (ap some here)
last_delim-slash d f r (suc k) (suc i) p h e =
    let (c, found, other) = get_elem?-name f r k p (omega arith) in
    rw (get_elem?-behind d slash (f ++ r) k i (omega arith) ∙ found, ne→== c slash other)
      (last_delim-slash d f r k i p (omega arith) (omega arith))

drop-behind : (d : List ℕ) (c : ℕ) (g : List ℕ) → drop (suc (length d)) (d ++ (c ∷ g)) ≡ g
drop-behind [] c g = refl
drop-behind (x ∷ d) c g = drop-behind d c g

take-name : (f r : List ℕ) → take (suc (length f)) (f ++ (0 ∷ r)) ≡ f ++ (0 ∷ [])
take-name [] r = refl
take-name (c ∷ f) r = ap (λ t. c ∷ t) (take-name f r)

-- `get_filename` of a path, given a block of the path's length, does not fault, and returns the text
-- behind the last slash with its terminator at the start of the block.
pub get_filename-cstr :
    (d f r block : List ℕ)
    → IsText (d ++ (slash ∷ f))
    → HasNoSlash f
    → length (d ++ (slash ∷ f)) ≤ length block
    → (rest : List ℕ) × (get_filename (cstr (d ++ (slash ∷ f)) r) (some block)
        ≡ some (some (cstr f rest)))
unfolding get_filename
get_filename-cstr d f r block p clean room =
    let path = d ++ (slash ∷ f) in
    let z = replicate (length path) 0 ++ drop (length path) block in
    let whole : cstr path r ≡ d ++ (slash ∷ (f ++ (0 ∷ r))) = append_assoc d (slash ∷ f) (0 ∷ r) in
    let found : last_delim (cstr path r) (length path) ≡ some (length d) =
      ap (λ m. last_delim m (length path)) whole
      ∙ last_delim-slash d f (0 ∷ r) (length f) (length path) clean (omega arith)
          (omega (arith, length-append {0} d (slash ∷ f))) in
    let tail : drop (suc (length d)) (cstr path r) ≡ f ++ (0 ∷ r) =
      ap (drop (suc (length d))) whole ∙ drop-behind d slash (f ++ (0 ∷ r)) in
    let count : length path - length d ≡ suc (length f) =
      omega (arith, length-append {0} d (slash ∷ f)) in
    let copied : List ℕ = take (length path - length d) (drop (suc (length d)) (cstr path r)) in
    let name : copied ≡ f ++ (0 ∷ []) = ap₂ take count tail ∙ take-name f r in
    let rest : List ℕ = drop (length path - length d) z in
    (
      rest,
      rw
          (
            strlen-length path r p,
            bzero-replicate block (length path) room,
            found,
            memcpy-take z (drop (suc (length d)) (cstr path r)) (length path - length d)
                (omega (
                  arith,
                  length-append {0} (replicate (length path) 0) (drop (length path) block),
                  length-replicate {0} {A = ℕ} (length path) 0,
                ))
                (omega (arith, ap length tail, length-append {0} f (0 ∷ r), count)),
          )
          (ap (λ t. some (some (t ++ rest))) name
            ∙ ap (λ t. some (some t)) (append_assoc f (0 ∷ []) rest)),
    )
