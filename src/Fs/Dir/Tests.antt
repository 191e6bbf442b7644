-- ===== src/Fs/Dir/Tests.antt =====
-- A block of three directory entries.
use potatoes.Prelude.{
  ◌*◌, ◌<◌, ◌≡◌, ◌⊎◌, refl, false, List, ℕ, [], ◌∷◌, none, some, arith, replicate, some-eq,
}
use potatoes.Klib.Strings.Text.{cstr}
use potatoes.Fs.Bmap.{Bmap, not_found}
use potatoes.Fs.Bmap.Mark.{Marked}
use potatoes.Fs.Bmap.Tests.{empty, empty-IsBmap}
use potatoes.Fs.Dir.{DirEntry, dir_entry_size, create_entry, delete_entry}
use potatoes.Fs.Dir.Slots.{Slots, same_text, lookup}
use potatoes.Fs.Dir.Refines.{
  Names, Refines, AllUsed, Replaced, bind_name, drop_name, create_entry-Refines,
  delete_entry-Refines,
}

abbrev an_entry : ℕ → ℕ → DirEntry
an_entry b c = record { inode = b; name = c ∷ replicate 27 0 }

-- The names "a" and "b" with a free entry between them.
abbrev three : List DirEntry
three = an_entry 41 97 ∷ an_entry 0 0 ∷ an_entry 42 98 ∷ []

abbrev slots : Slots
slots = (97 ∷ [], 41) ∷ ([], 0) ∷ (98 ∷ [], 42) ∷ []

abbrev names : Names
names u = lookup slots u

three-Refines : Refines three names
unfolding lookup same_text
three-Refines = (
  slots,
  (
    (replicate 26 0, omega arith, refl, omega arith, refl),
    (
      (replicate 27 0, tt, refl, omega arith, refl),
      ((replicate 26 0, omega arith, refl, omega arith, refl), tt),
    ),
  ),
  (λ _. refl, (λ n. absurd (n refl), (λ _. refl, tt))),
  λ u nonempty. refl,
)

create_entry-Refines_example :
    ((create_entry three 43 (cstr (99 ∷ []) (replicate 30 5)) ≡ some (three, not_found))
      × AllUsed three)
    ⊎ ((es' : List DirEntry) × (i : ℕ) × (create_entry three 43 (cstr (99 ∷ []) (replicate 30 5))
          ≡ some (es', i * dir_entry_size))
        × (c : ℕ) × Replaced three i ([], c) (99 ∷ [], 43) es'
        × Refines es' (bind_name names (99 ∷ []) 43))
create_entry-Refines_example =
    create_entry-Refines three names (99 ∷ []) (replicate 30 5) 43 three-Refines (omega arith)
      (λ e. cc e) (omega arith) (omega arith) (unfold lookup same_text in refl)

on_disk : (b : ℕ) → names (98 ∷ []) ≡ some b → b < 64
unfolding lookup same_text
on_disk b e = ground (arith, some-eq e)

delete_entry-Refines_example :
    ((names (98 ∷ []) ≡ none)
      × (delete_entry empty three (cstr (98 ∷ []) []) ≡ some (empty, three, not_found)))
    ⊎ ((b : ℕ) × (names (98 ∷ []) ≡ some b)
        × (bm' : Bmap) × (es' : List DirEntry) × (i : ℕ) × (delete_entry empty three
              (cstr (98 ∷ []) [])
            ≡ some (bm', es', i * dir_entry_size))
        × Replaced three i (98 ∷ [], b) ([], 0) es'
        × Marked empty b false bm'
        × Refines es' (drop_name names (98 ∷ [])))
delete_entry-Refines_example =
    delete_entry-Refines empty three names (98 ∷ []) [] three-Refines (omega arith) (λ e. cc e)
      empty-IsBmap (on_disk)
