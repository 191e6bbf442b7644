-- ===== src/Pm/Syscalls/Paths/InUse.antt =====
-- `sys_unlink` of a file in use, and `sys_open` when the table of the process is full.
use potatoes.Prelude.{
  ℕ, ◌<◌, ◌≤◌, ◌≡◌, ◌≢◌, inl, inr, refl, ap, ◌∙◌, true, false, none, some, List, [], ◌∷◌, ltb,
  arith, get_elem?,
}
use potatoes.Prelude.Int.{ℤ, pos, eq_ℤ}
use potatoes.Klib.Strings.Text.{IsText, cstr}
use potatoes.Fs.Device.Laws.{IsDevice}
use potatoes.Fs.Inodes.{MInode}
use potatoes.Fs.Inodes.Bytes.{IsDInode}
use potatoes.Fs.Inodes.Disk.Persist.{content, Stores}
use potatoes.Fs.Table.{first-num}
use potatoes.Fs.Files.{File, ProcFile, FileInfo, minus_one, name2desc, insert_proc_file}
use potatoes.Fs.Files.Global.{Open}
use potatoes.Fs.Files.Process.{IsProcTable, insert_proc_file_lem}
use potatoes.Fs.Dir.{slash}
use potatoes.Fs.Tree.{System, strdup}
use potatoes.Fs.Tree.Open.{PathMemory}
use potatoes.Fs.Tree.Open.Close.{Released, Spared, fs_close-Released, fs_open-open}
use potatoes.Fs.Tree.Create.{CreateMemory}
use potatoes.Fs.Tree.Main.{do_open}
use potatoes.Fs.Tree.Main.Calls.{do_open-fs_open, do_close-fs_close}
use potatoes.Pm.Devices.{pm_name2device}
use potatoes.Pm.Syscalls.{Driver, Kernel}
use potatoes.Pm.Syscalls.Paths.{
  OpenMemory, open_or_make, user_fd, enter_file, open_named, sys_open, unlink_open, sys_unlink,
}

module _ {W : Type 0} (k : Kernel W) {i : ℕ} {f : File} {n : ℕ} {x : MInode}
    (o : Open k.system.inodes k.system.gft i f n x) (v : IsDevice k.system.blocks.bm.dev)
    (inside : x.adr ≤ k.system.blocks.bm.dev.hdsize) (ok : IsDInode (content x))
    (in_use : 0 < f.count) (t rest : List ℕ) (text : IsText t) (other : t ≢ slash ∷ [])
    (named : name2desc k.system.gft (cstr t rest) ≡ some (pos i)) where
  -- `sys_unlink` of a file that is in use, by a path that an open file bears and that is not the
  -- root's, returns -1 and deletes nothing: the bitmap and all blocks of the disk stay but the block of
  -- the file's inode, to which the inode is written. But it takes a reference from the file: where
  -- there was only one, the file is open no more although the process has not closed it.
  pub sys_unlink-in_use :
      (fuel time : ℕ) (info : FileInfo) (opened : PathMemory) (memory : CreateMemory)
      → (s' : System) × (sys_unlink fuel k (cstr t rest) time info opened memory
          ≡ some (record k { system = s' }, minus_one))
        × Released k.system o s'
        × Stores s'.blocks.bm.dev x.adr x
        × Spared k.system x.adr s'
  unfolding sys_unlink unlink_open
  sys_unlink-in_use fuel time info opened memory =
      let s = k.system in
      let (s', closed, stores, released, spared) = fs_close-Released s o v inside ok in
      let reopened =
        do_open-fs_open fuel s (cstr t rest) opened
        ∙ fs_open-open fuel s t rest opened i text other named in
      let found = first-num (λ (y : File). y.desc) s.gft i o.files o.file o.desc in
      let used : ltb 0 f.count ≡ true = ground arith in
      (
        s',
        rw (reopened, found, o.file, used, do_close-fs_close s s' (pos i) true closed) refl,
        released,
        stores,
        spared,
      )

-- No entry of the table is unused.
abbrev pub AllInUse : List ProcFile → Type 0
AllInUse pft = (j : ℕ) (y : ProcFile) → get_elem? pft j ≡ some y → eq_ℤ y.desc minus_one ≡ false

no_room :
    (gft : List File) (pft : List ProcFile) (fd : ℤ)
    → IsProcTable pft
    → AllInUse pft
    → insert_proc_file gft pft fd ≡ some (gft, pft, minus_one)
no_room gft pft fd table full = elim (insert_proc_file_lem gft pft fd table) [
  | inr refused ↦ refused.1
  | inl (gft', counted, (j, y, at, unused, before, ran, table', found)) ↦
      absurd (let e = full j y at in let u = ap (λ d. eq_ℤ d minus_one) unused in cc (e, u))
]

-- Where the table of the process is full, `sys_open` of a file that the file system has opened returns
-- 99, which is not negative and is the descriptor of a device.
pub sys_open-full :
    {W : Type 0} (fuel : ℕ) (drv : Driver W) (k : Kernel W) (path copy : List ℕ) (oflag mode : ℤ)
    (time : ℕ) (memory : OpenMemory) (s : System) (fd : ℕ)
    → strdup path memory.path ≡ some (some copy)
    → pm_name2device k.devices copy ≡ some none
    → do_open fuel k.system copy memory.opened ≡ some (s, pos fd)
    → IsProcTable k.pft
    → AllInUse k.pft
    → sys_open fuel drv k path oflag mode time memory ≡ some (record k { system = s }, pos 99)
unfolding sys_open open_named open_or_make enter_file user_fd
sys_open-full fuel drv k path copy oflag mode time memory s fd copied no_device opened table full =
    rw (copied, no_device, opened, no_room s.gft k.pft (pos fd) table full) refl
