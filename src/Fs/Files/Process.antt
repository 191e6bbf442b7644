-- ===== src/Fs/Files/Process.antt =====
-- The file table of one process.
use potatoes.Prelude.{
  ℕ, zero, suc, ◌+◌, ◌%◌, ◌^◌, ◌<◌, ◌≡◌, ◌⊎◌, inl, inr, refl, ap, ◌∙◌, false, List, [], ◌∷◌, Option,
  some, none, ◌>>=◌, arith, get_elem?, get_elem?-set, get_elem?-lt, set,
}
use potatoes.Prelude.Int.{ℤ, pos, eq_ℤ, eq_ℤ→eq}
use potatoes.Fs.Table.{first, IsFirst, first-IsFirst, IsTable, set-IsTable, first-num, first-unused}
use potatoes.Fs.Files.{
  File, ProcFile, minus_one, get_file, get_proc_file, take_proc_file, inc_count, inc_count_at,
  insert_proc_file, count_if_open, fill_proc_file, reset_proc_file, free_proc_file,
}

abbrev pub IsProcTable : List ProcFile → Type 0
IsProcTable = IsTable (λ (x : ProcFile). x.desc)

-- The entry of a new process file.
abbrev pub opened : ℕ → ℤ → ProcFile
opened i glo_fd = record { desc = pos i; f_desc = glo_fd; position = 0 }

-- `insert_proc_file` has used the first unused entry, and `get_proc_file` finds it.
abbrev pub Inserted : List File → List ProcFile → ℤ → List File → Type 0
Inserted gft pft glo_fd gft' =
    (i : ℕ) × (x : ProcFile) × (get_elem? pft i ≡ some x)
    × (x.desc ≡ minus_one)
    × ((j : ℕ) (y : ProcFile) → j < i → get_elem? pft j ≡ some y → eq_ℤ y.desc minus_one ≡ false)
    × (insert_proc_file gft pft glo_fd ≡ some (gft', set pft i (opened i glo_fd), pos i))
    × IsProcTable (set pft i (opened i glo_fd))
    × (get_proc_file (set pft i (opened i glo_fd)) (pos i) ≡ some i)

-- No entry is unused, and `insert_proc_file` has changed nothing.
abbrev pub Refused : List File → List ProcFile → ℤ → Type 0
Refused gft pft glo_fd =
    ((j : ℕ) (y : ProcFile) → get_elem? pft j ≡ some y → eq_ℤ y.desc minus_one ≡ false)
    × (insert_proc_file gft pft glo_fd ≡ some (gft, pft, minus_one))

at-set :
    (t : List ProcFile) (i : ℕ) {x : ProcFile} (v : ProcFile)
    → get_elem? t i ≡ some x
    → get_elem? (set t i v) i ≡ some v
at-set t i v e = ground (arith, get_elem?-set t i i v (get_elem?-lt t i e))

set-twice : (t : List ProcFile) (i : ℕ) (v w : ProcFile) → set (set t i v) i w ≡ set t i w
set-twice [] i v w = refl
set-twice (x ∷ t) zero v w = refl
set-twice (x ∷ t) (suc i) v w = ap (λ r. x ∷ r) (set-twice t i v w)

filled :
    (gft gft' : List File) (pft : List ProcFile) (glo_fd : ℤ) (i : ℕ) {x : ProcFile}
    → count_if_open gft glo_fd (get_file gft glo_fd) ≡ some gft'
    → get_elem? pft i ≡ some x
    → (take_proc_file pft (some i) >>= fill_proc_file gft glo_fd)
      ≡ some (gft', set pft i (opened i glo_fd), pos i)
filled gft gft' pft glo_fd i {x} counted e =
    let v : ProcFile = record x { desc = pos i } in
    let twice = set-twice pft i v (opened i glo_fd) in
    rw (e, at-set pft i v e, counted, twice, at-set pft i (opened i glo_fd) e) refl

-- One more reference to the file that bears `glo_fd`, if one does.
abbrev pub Referenced : List File → ℤ → List File → Type 0
Referenced gft glo_fd gft' =
    ((get_file gft glo_fd ≡ none) × (gft' ≡ gft))
    ⊎ ((i : ℕ) × (f : File) × (get_file gft glo_fd ≡ some i)
        × (get_elem? gft i ≡ some f)
        × (gft' ≡ set gft i (record f { count = (f.count + 1) % 2 ^ 16 })))

count_if_open-Referenced :
    (gft : List File) (glo_fd : ℤ)
    → (gft' : List File) × (count_if_open gft glo_fd (get_file gft glo_fd) ≡ some gft')
      × Referenced gft glo_fd gft'
unfolding inc_count
count_if_open-Referenced gft glo_fd =
    found (get_file gft glo_fd) refl (first-IsFirst (λ (y : File). eq_ℤ y.desc glo_fd) gft)
  where
    found :
        (o : Option ℕ)
        → get_file gft glo_fd ≡ o
        → IsFirst (λ (y : File). eq_ℤ y.desc glo_fd) gft o
        → (gft' : List File) × (count_if_open gft glo_fd (get_file gft glo_fd) ≡ some gft')
          × Referenced gft glo_fd gft'
    found none r all = (gft, ap (count_if_open gft glo_fd) r, inl (r, refl))
    found (some i) r ((f, e, h), before) =
        let g : File = record f { count = (f.count + 1) % 2 ^ 16 } in
        (
          set gft i g,
          ap (count_if_open gft glo_fd) r
              ∙ (ap (inc_count_at gft) r
                  ∙ ap
                      (λ o. o >>= (λ (x : File).
                        some (set gft i (record x { count = (x.count + 1) % 2 ^ 16 }))))
                      e),
          inr (i, f, r, e, refl),
        )

insert_proc_file-choice :
    (gft gft' : List File) (pft : List ProcFile) (glo_fd : ℤ)
    → IsProcTable pft
    → count_if_open gft glo_fd (get_file gft glo_fd) ≡ some gft'
    → Inserted gft pft glo_fd gft' ⊎ Refused gft pft glo_fd
unfolding insert_proc_file
insert_proc_file-choice gft gft' pft glo_fd table counted =
    found (first (λ (y : ProcFile). eq_ℤ y.desc minus_one) pft) refl
      (first-IsFirst (λ (y : ProcFile). eq_ℤ y.desc minus_one) pft)
  where
    found :
        (o : Option ℕ)
        → first (λ (y : ProcFile). eq_ℤ y.desc minus_one) pft ≡ o
        → IsFirst (λ (y : ProcFile). eq_ℤ y.desc minus_one) pft o
        → Inserted gft pft glo_fd gft' ⊎ Refused gft pft glo_fd
    found none r all = inr (all, ap (λ o. take_proc_file pft o >>= fill_proc_file gft glo_fd) r)
    found (some i) r ((x, e, h), before) =
        let after =
          set-IsTable (λ (y : ProcFile). y.desc) pft i (opened i glo_fd) e (inr refl) table in
        inl (
          i,
          x,
          e,
          eq_ℤ→eq x.desc minus_one h,
          before,
          ap (λ o. take_proc_file pft o >>= fill_proc_file gft glo_fd) r
              ∙ filled gft gft' pft glo_fd i counted e,
          after,
          first-num (λ (y : ProcFile). y.desc) (set pft i (opened i glo_fd)) i after
              (at-set pft i (opened i glo_fd) e) refl,
        )

-- Where the table of the process has an unused entry, `insert_proc_file` fills the first one with its
-- own number, the global descriptor and position 0, counts the reference to the global file if that
-- is open, and `get_proc_file` then finds the entry. Where it has none, -1 is returned and neither
-- table changes.
pub insert_proc_file_lem :
    (gft : List File) (pft : List ProcFile) (glo_fd : ℤ)
    → IsProcTable pft
    → ((gft' : List File) × Referenced gft glo_fd gft' × Inserted gft pft glo_fd gft')
      ⊎ Refused gft pft glo_fd
insert_proc_file_lem gft pft glo_fd table =
    let (gft', counted, referenced) = count_if_open-Referenced gft glo_fd in
    elim (insert_proc_file-choice gft gft' pft glo_fd table counted) [
      | inl inserted ↦ inl (gft', referenced, inserted)
      | inr refused ↦ inr refused
    ]

-- The entry that `free_proc_file` leaves.
abbrev pub closed : ProcFile
closed = record { desc = minus_one; f_desc = minus_one; position = 0 }

-- `free_proc_file` of an open descriptor resets its entry and no other, and the descriptor is found
-- no more.
pub free_proc_file_lem :
    (pft : List ProcFile) (i : ℕ) (x : ProcFile)
    → IsProcTable pft
    → get_elem? pft i ≡ some x
    → x.desc ≡ pos i
    → (free_proc_file pft (pos i) ≡ some (set pft i closed))
      × IsProcTable (set pft i closed)
      × (get_proc_file (set pft i closed) (pos i) ≡ none)
unfolding free_proc_file
free_proc_file_lem pft i x table e used =
    let after = set-IsTable (λ (y : ProcFile). y.desc) pft i closed e (inl refl) table in
    (
      ap (reset_proc_file pft) (first-num (λ (y : ProcFile). y.desc) pft i table e used)
          ∙ ap (λ o. o >>= (λ (y : ProcFile). some (set pft i closed))) e,
      after,
      first-unused (λ (y : ProcFile). y.desc) (set pft i closed) i after (at-set pft i closed e)
          refl,
    )
