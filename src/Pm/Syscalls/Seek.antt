-- ===== src/Pm/Syscalls/Seek.antt =====
-- Setting the position of a file and asking for it.
use potatoes.Prelude.{
  ℕ, ◌+◌, ◌-◌, ◌%◌, ◌^◌, ◌<◌, ◌≡◌, ◌∙◌, inr, refl, ap, false, some, ltb, arith, get_elem?,
  get_elem?-set, get_elem?-lt, set,
}
use potatoes.Prelude.Int.{ℤ, pos, negsuc}
use potatoes.Fs.Table.{set-IsTable, first-num}
use potatoes.Fs.Files.{ProcFile, get_proc_file, seek_position}
use potatoes.Fs.Files.Process.{IsProcTable}
use potatoes.Pm.Syscalls.{
  Driver, Kernel, max_devices, to_uint32, to_int32, seek_to, seek_file, sys_seek,
}

-- An `int` of 32 bits.
abbrev pub IsInt32 : ℤ → Type 0
IsInt32 (pos n) = n < 2 ^ 31
IsInt32 (negsuc n) = n < 2 ^ 31

to_int32-to_uint32 : (z : ℤ) → IsInt32 z → to_int32 (to_uint32 z) ≡ z
unfolding to_int32 to_uint32
to_int32-to_uint32 (pos n) h = ground arith
to_int32-to_uint32 (negsuc n) h = ground arith

to_int32-wrapped : (n : ℕ) → to_int32 ((n + 0) % 2 ^ 32) ≡ to_int32 n
unfolding to_int32
to_int32-wrapped n = ground arith

module _ {W : Type 0} (k : Kernel W) (i : ℕ) (pf : ProcFile) (table : IsProcTable k.pft)
    (e : get_elem? k.pft i ≡ some pf) (desc : pf.desc ≡ pos i) where
  found : get_proc_file k.pft (pos i) ≡ some i
  found = first-num (λ (y : ProcFile). y.desc) k.pft i table e desc

  -- The kernel with the entry at position `p`.
  abbrev at_position : ℕ → Kernel W
  at_position p = record k { pft = set k.pft i (record pf { position = p }) }

  seek_file-to :
      (offset whence : ℤ) (p : ℕ)
      → seek_to k.system pf offset whence ≡ some p
      → seek_file k (pos i) offset whence ≡ some (at_position p, to_int32 p)
  unfolding seek_file
  seek_file-to offset whence p to = rw (found, e, to) refl

  sys_seek-seek_file :
      (drv : Driver W) (offset whence : ℤ)
      → sys_seek drv k (pos (i + max_devices)) offset whence ≡ seek_file k (pos i) offset whence
  unfolding sys_seek
  sys_seek-seek_file drv offset whence =
      let file : ltb (i + max_devices) max_devices ≡ false = ground arith in
      let own : i + max_devices - max_devices ≡ i = omega arith in rw (file, own) refl

-- `sys_seek` of an open file to an offset from its start returns the offset, and `sys_seek` by 0 from
-- the current position, after that, returns it again.
pub sys_seek-tell :
    {W : Type 0} (drv : Driver W) (k : Kernel W) (i : ℕ) (pf : ProcFile) (offset : ℤ)
    → IsProcTable k.pft
    → get_elem? k.pft i ≡ some pf
    → pf.desc ≡ pos i
    → IsInt32 offset
    → (k' k'' : Kernel W) × (sys_seek drv k (pos (i + max_devices)) offset (pos 0)
        ≡ some (k', offset))
      × (sys_seek drv k' (pos (i + max_devices)) (pos 0) (pos 1) ≡ some (k'', offset))
unfolding seek_to seek_position
sys_seek-tell drv k i pf offset table e desc range =
    let p = to_uint32 offset in
    let back = to_int32-to_uint32 offset range in
    let moved = record pf { position = p } in
    let k' = at_position k i pf table e desc p in
    let table' = set-IsTable (λ (y : ProcFile). y.desc) k.pft i moved e (inr desc) table in
    let e' : get_elem? (set k.pft i moved) i ≡ some moved =
      ground (arith, get_elem?-set k.pft i i moved (get_elem?-lt k.pft i e)) in
    let q = (p + 0) % 2 ^ 32 in
    (
      k',
      at_position k' i moved table' e' desc q,
      sys_seek-seek_file k i pf table e desc drv offset (pos 0)
          ∙ (seek_file-to k i pf table e desc offset (pos 0) p refl ∙ ap (λ z. some (k', z)) back),
      sys_seek-seek_file k' i moved table' e' desc drv (pos 0) (pos 1)
          ∙ (seek_file-to k' i moved table' e' desc (pos 0) (pos 1) q refl
              ∙ ap (λ z. some (at_position k' i moved table' e' desc q, z))
                  (to_int32-wrapped p ∙ back)),
    )
