-- ===== src/Fs/Dir/Refines.antt =====
-- A block of directory entries is a finite map from names to the blocks of inodes: the operations on
-- the entries refine those on the map, which forgets where a name stands and what follows it.
use potatoes.Prelude.{
  ℕ, ◌+◌, ◌-◌, ◌*◌, ◌≤◌, ◌<◌, ◌≡◌, ◌≢◌, refl, sym, ap, ◌∙◌, inl, inr, ◌⊎◌, false, Option, none,
  some, List, [], ◌∷◌, ◌++◌, if◌then◌else◌, get_elem?, set, take, drop, replicate, length, arith,
  some-eq, length-append, length-take, append_assoc,
}
use potatoes.Klib.Memory.{memcpy-take, bzero-replicate}
use potatoes.Klib.Strings.Text.{IsText, cstr}
use potatoes.Fs.Bmap.{Bmap, not_found}
use potatoes.Fs.Bmap.Mark.{IsBmap, Marked, mark_block-Marked}
use potatoes.Fs.Files.{name_size}
use potatoes.Fs.Dir.{
  DirEntry, dir_entry_size, inode_at, find_filename, fill_entry, create_entry, clear_entry,
  delete_entry,
}
use potatoes.Fs.Dir.Slots.{
  Slots, same_text, same_text_self, index_of, index_of-none, lookup, Distinct, index_of-lookup,
  lookup-set_free, lookup-set_empty, Distinct-set_free, Distinct-set_empty,
}
use potatoes.Fs.Dir.Entries.{
  Holds, Represents, find_entry-index_of, Represents-get, Represents-set, take-cstr,
}

-- A map from names to blocks.
abbrev pub Names : Type 0
Names = List ℕ → Option ℕ

abbrev pub bind_name : Names → List ℕ → ℕ → Names
bind_name m t b u = if same_text t u then some b else m u

abbrev pub drop_name : Names → List ℕ → Names
drop_name m t u = if same_text t u then none else m u

abbrev pub block_or : Option ℕ → ℕ
block_or none = not_found
block_or (some b) = b

-- The entries stand for the map: the used ones bear distinct names, and the map has these.
abbrev pub Refines : List DirEntry → Names → Type 0
Refines es m =
    (sl : Slots) × Represents sl es × Distinct sl × ((u : List ℕ) → u ≢ [] → lookup sl u ≡ m u)

-- No entry is free.
abbrev pub AllUsed : List DirEntry → Type 0
AllUsed [] = Unit
AllUsed (e ∷ es) = (get_elem? e.name 0 ≢ some 0) × AllUsed es

-- `find_filename` of a name returns the block that the map has for it, or NOT_FOUND where it has none.
pub find_filename-Refines :
    (es : List DirEntry) (m : Names) (t q : List ℕ)
    → Refines es m
    → IsText t
    → t ≢ []
    → find_filename es (cstr t q) ≡ some (block_or (m t))
unfolding find_filename inode_at
find_filename-Refines es m t q (sl, v, distinct, same) p named =
    let ran = find_entry-index_of sl es t q v p in
    elim (index_of-lookup sl t) [
      | inl (e, l) ↦ rw (ran, e, ← same t named, l) refl
      | inr (i, b, e, at, l) ↦
          let (x, found, (rest, text, name, size, blk)) = Represents-get sl es i t b v at in
          rw (ran, e, ← same t named, l, found) (ap some blk)
    ]

starts_non_zero :
    (u rest : List ℕ) → IsText u → same_text u [] ≡ false → get_elem? (cstr u rest) 0 ≢ some 0
starts_non_zero [] rest p e h = let f = same_text_self [] in cc (e, f)
starts_non_zero (c ∷ u) rest p e h = p.0 (some-eq h)

used : (sl : Slots) (es : List DirEntry) → Represents sl es → index_of sl [] ≡ none → AllUsed es
used [] [] v e = tt
used [] (x ∷ es) v e = absurd v
used (y ∷ sl) [] v e = absurd v
used ((u, b) ∷ sl) (x ∷ es) ((rest, text, name, size, blk), v) e =
    let (named, others) = index_of-none u b sl [] e in
    (
      λ zero_byte.
          starts_non_zero u rest text named (sym (ap (λ n. get_elem? n 0) name) ∙ zero_byte),
      used sl es v others,
    )

new_entry-Holds :
    (t q old : List ℕ) (b : ℕ)
    → IsText t
    → length t < name_size
    → name_size ≤ length old
    → name_size ≤ length (cstr t q)
    → Holds (t, b) (record { inode = b; name = take name_size (cstr t q) ++ drop name_size old })
new_entry-Holds t q old b p fits size long = (
  take (name_size - length t - 1) q ++ drop name_size old,
  p,
  ap (λ r. r ++ drop name_size old) (take-cstr name_size t q fits)
      ∙ append_assoc t (0 ∷ take (name_size - length t - 1) q) (drop name_size old),
  omega (
    arith,
    length-append {0} (take name_size (cstr t q)) (drop name_size old),
    length-take {0} name_size (cstr t q),
  ),
  refl,
)

free_entry-Holds :
    (old : List ℕ)
    → name_size ≤ length old
    → Holds ([], 0) (record { inode = 0; name = replicate name_size 0 ++ drop name_size old })
free_entry-Holds old size = (
  replicate 27 0 ++ drop name_size old,
  tt,
  refl,
  omega (arith, length-append {0} (replicate name_size 0) (drop name_size old)),
  refl,
)

-- Entry `i`, which stood for the slot `old`, stands for `new`, and every other entry stays.
abbrev pub Replaced : List DirEntry → ℕ → List ℕ × ℕ → List ℕ × ℕ → List DirEntry → Type 0
Replaced es i old new es' =
    (e : DirEntry) × (e' : DirEntry) × (get_elem? es i ≡ some e)
    × Holds old e
    × Holds new e'
    × (es' ≡ set es i e')

-- `create_entry` of a name that the map does not have, and that is shorter than the memory of names,
-- binds the name in the map to the block: it puts the name and the block into one entry, which was
-- free, changes no other entry, and returns the position of that entry in the block; no other name
-- of the map changes. Where no entry is free it returns NOT_POSSIBLE and changes nothing.
pub create_entry-Refines :
    (es : List DirEntry) (m : Names) (t q : List ℕ) (b : ℕ)
    → Refines es m
    → IsText t
    → t ≢ []
    → length t < name_size
    → name_size ≤ length t + 1 + length q
    → m t ≡ none
    → ((create_entry es b (cstr t q) ≡ some (es, not_found)) × AllUsed es)
      ⊎ ((es' : List DirEntry) × (i : ℕ) × (create_entry es b (cstr t q)
            ≡ some (es', i * dir_entry_size))
          × (c : ℕ) × Replaced es i ([], c) (t, b) es'
          × Refines es' (bind_name m t b))
unfolding create_entry fill_entry
create_entry-Refines es m t q b (sl, v, distinct, same) p named fits room fresh =
    let ran = find_entry-index_of sl es [] [] v tt in
    elim (index_of-lookup sl []) [
      | inl (e, l) ↦ inl (rw (ran, e) refl, used sl es v e)
      | inr (i, c, e, at, l) ↦
          let (x, found, (rest, text, name, size, blk)) = Represents-get sl es i [] c v at in
          let long : name_size ≤ length (cstr t q) = omega (arith, length-append {0} t (0 ∷ q)) in
          let copied = memcpy-take x.name (cstr t q) name_size size long in
          let free = same t named ∙ fresh in
          let entry : DirEntry = record {
            inode = b;
            name = take name_size (cstr t q) ++ drop name_size x.name;
          } in
          let filled : Holds (t, b) entry = new_entry-Holds t q x.name b p fits size long in
          inr (
            set es i entry,
            i,
            rw (ran, e, found, copied) refl,
            c,
            (x, entry, found, (rest, text, name, size, blk), filled, refl),
            (
              set sl i (t, b),
              Represents-set sl es i (t, b) entry v filled,
              Distinct-set_free sl i b t e free distinct,
              λ u nonempty.
                  lookup-set_free sl i b t u e free nonempty
                  ∙ ap (λ o. if same_text t u then some b else o) (same u nonempty),
            ),
          )
    ]

-- `delete_entry` of a name that the map has, bound to a block of the disk, drops the name from the
-- map, marks that block as unused and no other, and clears the entry that bears the name and the
-- block, whose position in the block it returns; no other entry and no other name of the map
-- changes. Where the map does not have the name it returns NOT_FOUND and changes nothing.
pub delete_entry-Refines :
    (bm : Bmap) (es : List DirEntry) (m : Names) (t q : List ℕ)
    → Refines es m
    → IsText t
    → t ≢ []
    → IsBmap bm
    → ((b : ℕ) → m t ≡ some b → b < bm.dev.hdsize)
    → ((m t ≡ none) × (delete_entry bm es (cstr t q) ≡ some (bm, es, not_found)))
      ⊎ ((b : ℕ) × (m t ≡ some b)
          × (bm' : Bmap) × (es' : List DirEntry) × (i : ℕ) × (delete_entry bm es (cstr t q)
              ≡ some (bm', es', i * dir_entry_size))
          × Replaced es i (t, b) ([], 0) es'
          × Marked bm b false bm'
          × Refines es' (drop_name m t))
unfolding delete_entry clear_entry
delete_entry-Refines bm es m t q (sl, v, distinct, same) p named ok on_disk =
    let ran = find_entry-index_of sl es t q v p in
    elim (index_of-lookup sl t) [
      | inl (e, l) ↦ inl (sym (same t named) ∙ l, rw (ran, e) refl)
      | inr (i, b, e, at, l) ↦
          let (x, found, (rest, text, name, size, blk)) = Represents-get sl es i t b v at in
          let bound = sym (same t named) ∙ l in
          let cleared = bzero-replicate x.name name_size size in
          let (bm', marked, mark) = mark_block-Marked ok b (on_disk b bound) false in
          let entry : DirEntry = record {
            inode = 0;
            name = replicate name_size 0 ++ drop name_size x.name;
          } in
          let freed : Holds ([], 0) entry = free_entry-Holds x.name size in
          inr (
            b,
            bound,
            bm',
            set es i entry,
            i,
            rw (ran, e, found, cleared, blk, marked) refl,
            (x, entry, found, (rest, text, name, size, blk), freed, refl),
            mark,
            (
              set sl i ([], 0),
              Represents-set sl es i ([], 0) entry v freed,
              Distinct-set_empty sl i t e distinct named,
              λ u nonempty.
                  lookup-set_empty sl i t u e distinct named nonempty
                  ∙ ap (λ o. if same_text t u then none else o) (same u nonempty),
            ),
          )
    ]
