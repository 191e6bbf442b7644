-- ===== src/Fs/Tree/Search/Root.antt =====
-- The search for a file of the root directory.
use potatoes.Prelude.{
  ℕ, suc, ◌-◌, ◌^◌, ◌≤◌, ◌<◌, ◌≡◌, ◌≢◌, refl, sym, ap, ◌∙◌, inl, inr, true, false, Option, none,
  some, List, [], ◌∷◌, ◌++◌, append-nil, ◌==◌, get_elem?, take, drop, take-all, drop-all, length,
  arith, Bool-cases, eq→==, ==→eq,
}
use potatoes.Klib.Strings.{strcmp}
use potatoes.Klib.Strings.Text.{IsText, cstr}
use potatoes.Klib.Strings.Length.{Absent}
use potatoes.Klib.Strings.Compare.{strcmp-zero_iff}
use potatoes.Prelude.Int.{pos}
use potatoes.Klib.Strings.Copy.{strcpy-cstr}
use potatoes.Klib.Strings.Find.{strsep-cut}
use potatoes.Fs.Device.Laws.{IsDevice, block_size-eq}
use potatoes.Fs.Bmap.{not_found}
use potatoes.Fs.Inodes.{MInode}
use potatoes.Fs.Inodes.Bytes.{IsDInode}
use potatoes.Fs.Inodes.Disk.Persist.{content}
use potatoes.Fs.Blocks.{Blocks}
use potatoes.Fs.Io.Read.{fs_read-take, fs_read-unset}
use potatoes.Fs.Dir.{DirEntry, slash}
use potatoes.Fs.Dir.Refines.{Names, Refines, block_or, find_filename-Refines}
use potatoes.Fs.Tree.{
  System, dir_entries_per_block, encode_entries, decode_entries, strdup, get_root, set_root,
}
use potatoes.Fs.Tree.Search.{
  read_dir, enter_dir, find_read, search_dir, next_token, rfsearch, search_from, search_file,
}

pub strdup-cstr :
    (t q block : List ℕ)
    → IsText t
    → length t < length block
    → strdup (cstr t q) (some block) ≡ some (some (cstr t (drop (suc (length t)) block)))
unfolding strdup
strdup-cstr t q block text room = rw (strcpy-cstr t q block text room) refl

-- The token before the first slash is empty.
empty_token : strcmp (cstr [] []) (0 ∷ []) ≡ some (pos 0)
empty_token =
    let (ran, zero_iff) = strcmp-zero_iff [] [] [] [] tt tt in ran ∙ ap some (zero_iff.1 refl)

-- The root directory has one block, `p`, and the directory cache has its size.
pub record HasRoot (s : System) (root : MInode) (p : ℕ) : Type 0 where
  pub first : get_root s ≡ some root
  pub cache : length (encode_entries s.dir_cache) ≡ 512
  pub size : root.size ≡ 512
  pub block : get_elem? root.direct_pointer 0 ≡ some p
  pub only : get_elem? root.direct_pointer 1 ≡ some 0
  pub is_set : p ≢ 0
  pub other : p ≢ root.adr
  pub inside : p ≤ s.blocks.bm.dev.hdsize
  pub small : s.blocks.bm.dev.hdsize < 2 ^ 32 - 1
  pub device : IsDevice s.blocks.bm.dev
  pub adr : root.adr ≤ s.blocks.bm.dev.hdsize
  pub fields : IsDInode (content root)

-- The entries that the block holds.
abbrev pub entries_at : System → ℕ → List DirEntry
entries_at s p = decode_entries dir_entries_per_block (s.blocks.bm.dev.sector p)

read_whole :
    (block buf : List ℕ)
    → length block ≡ 512
    → length buf ≡ 512
    → take 512 block ++ drop 512 buf ≡ block
read_whole block buf h k =
    ap (λ t. take 512 block ++ t) (drop-all buf 512 k)
    ∙ (append-nil (take 512 block) ∙ take-all block 512 h)

module _ (s : System) (root : MInode) (p : ℕ) (h : HasRoot s root p) where
  read_dir-first :
      (blocks : Blocks) × (read_dir s root 0 false
        ≡ some (record s { blocks = blocks; dir_cache = entries_at s p }, root, 512))
  unfolding read_dir
  read_dir-first =
      let buf = encode_entries s.dir_cache in
      let (blocks, read) =
        fs_read-take 0 s.blocks buf root 512 0 p false (omega arith) (omega (arith, h.cache))
          (omega arith) (omega arith) (omega arith) h.block h.is_set h.other h.inside h.small
          h.device h.adr h.fields in
      (
        blocks,
        rw read (
            ap
              (λ b. some (
                record s { blocks = blocks; dir_cache = decode_entries dir_entries_per_block b },
                root,
                512,
              ))
              (read_whole (s.blocks.bm.dev.sector p) buf (h.device.sectors p ∙ block_size-eq)
                h.cache)),
      )

  -- Behind its only block the directory is read no further.
  read_dir-end :
      (s1 : System)
      → (dir_cache : List DirEntry) × (read_dir s1 root 512 false
          ≡ some (record s1 { dir_cache = dir_cache }, root, 0))
  unfolding read_dir
  read_dir-end s1 =
      let buf = encode_entries s1.dir_cache in
      (
        decode_entries dir_entries_per_block buf,
        rw
            (fs_read-unset 0 s1.blocks buf root 512 512 (omega arith) (omega (arith, h.size))
              (omega arith) h.only)
            refl,
      )

  -- The search through the directory.
  search_dir-Names :
      (fuel : ℕ) (m : Names) (t q : List ℕ)
      → Refines (entries_at s p) m
      → IsText t
      → t ≢ []
      → (s' : System) × (search_dir (suc (suc fuel)) s root 0 (some (cstr t q))
          ≡ some (s', root, block_or (m t)))
  unfolding search_dir find_read
  search_dir-Names fuel m t q refines text named =
      let (blocks, first_read) = read_dir-first in
      let s1 : System = record s { blocks = blocks; dir_cache = entries_at s p } in
      let (dir_cache, last_read) = read_dir-end s1 in
      let found = find_filename-Refines (entries_at s p) m t q refines text named in
      elim (Bool-cases (block_or (m t) == not_found)) [
        | inl missing ↦ (
          record s1 { dir_cache = dir_cache },
          rw (first_read, found, missing, last_read)
              (ap (λ b. some (record s1 { dir_cache = dir_cache }, root, b))
                (sym (==→eq (block_or (m t)) not_found missing))),
        )
        | inr there ↦ (s1, rw (first_read, found, there) refl)
      ]

  -- A path that ends here.
  next_token-end :
      (rest : System → Option (List ℕ) → Option (List ℕ) → Option (System × ℕ)) (s1 : System)
      (file_blk : ℕ)
      → next_token rest s1 none file_blk ≡ some (s1, file_blk)
  unfolding next_token
  next_token-end rest s1 file_blk =
      let ended = (strsep-cut [] [] [] slash tt tt (omega arith)).2 in
      elim (Bool-cases (file_blk == not_found)) [
        | inl missing ↦ rw missing (ap (λ b. some (s1, b)) (sym (==→eq file_blk not_found missing)))
        | inr there ↦ rw (there, ended) refl
      ]

  enter_dir-root : enter_dir s root.adr ≡ some (s, root, true)
  unfolding enter_dir
  enter_dir-root = rw (h.first, eq→== root.adr root.adr refl) refl

  rfsearch-Names :
      (fuel : ℕ) (m : Names) (t q : List ℕ)
      → Refines (entries_at s p) m
      → IsText t
      → t ≢ []
      → (s' : System) × (rfsearch (suc (suc (suc fuel))) s root.adr none (some (cstr t q))
          ≡ some (s', block_or (m t)))
  unfolding rfsearch
  rfsearch-Names fuel m t q refines text named =
      let (s1, searched) = search_dir-Names fuel m t q refines text named in
      (
        set_root s1 root,
        rw (enter_dir-root, searched)
            (next_token-end
              (λ s3 path' tok'. rfsearch (suc (suc fuel)) s3 (block_or (m t)) path' tok')
              (set_root s1 root) (block_or (m t))),
      )

  -- Where the root directory has one block, whose entries stand for a map from names to blocks,
  -- `search_file` of a path that is a slash and a name returns the block that the map has for the
  -- name, or NOT_FOUND where it has none, if `mallocn` gave enough memory for the copy of the path;
  -- fuel of three is enough.
  pub search_file-Names :
      (fuel : ℕ) (m : Names) (t q block : List ℕ)
      → Refines (entries_at s p) m
      → IsText t
      → t ≢ []
      → Absent t slash
      → suc (length t) < length block
      → (s' : System) × (search_file (suc (suc (suc fuel))) s (cstr (slash ∷ t) q) (some block)
          ≡ some (s', block_or (m t)))
  unfolding search_file search_from
  search_file-Names fuel m t q block refines text named absent room =
      let rest = drop (suc (suc (length t))) block in
      let copied = strdup-cstr (slash ∷ t) q block (omega arith, omega arith, text) room in
      let cut = (strsep-cut [] t rest slash tt tt (omega arith)).0 in
      let last = (strsep-cut t [] rest slash text absent (omega arith)).1 in
      let (s', searched) = rfsearch-Names fuel m t rest refines text named in
      (s', rw (copied, cut, empty_token, h.first, last) searched)
