-- ===== src/Pm/Syscalls/Paths.antt =====
-- The system calls that take a path: `sys_open`, `sys_unlink` and `sys_stat`. `fuel` bounds the loops
-- of the file system.
pub mod InUse
use potatoes.Prelude.{
  ℕ, zero, suc, ◌+◌, ◌-◌, ◌%◌, ◌^◌, Bool, true, false, ◌&&◌, Option, none, some, List, [], ◌∷◌,
  ◌==◌, ltb, leb, if◌then◌else◌, ◌>>=◌, get_elem?, set, replicate,
}
use potatoes.Prelude.Int.{ℤ, pos, negsuc, eq_ℤ}
use potatoes.Klib.Strings.{strlen}
use potatoes.Fs.Files.{
  File, ProcFile, FileInfo, name_size, minus_one, get_file, get_file_info, insert_proc_file,
}
use potatoes.Fs.Dir.{slash}
use potatoes.Fs.Tree.{System, strdup}
use potatoes.Fs.Tree.Edit.{directory}
use potatoes.Fs.Tree.Open.{PathMemory}
use potatoes.Fs.Tree.Create.{CreateMemory}
use potatoes.Fs.Tree.Main.{do_open, do_close, do_close_pf, do_mkdir, do_mkfile, do_remove}
use potatoes.Pm.Devices.{Device, pm_name2device}
use potatoes.Pm.Syscalls.{Driver, Kernel, with_world, max_devices}

-- What `mallocn` gives: to the copy of the path, to the first `do_open`, where the file is made, and
-- to the second `do_open`.
pub record OpenMemory : Type 0 where
  pub path : Option (List ℕ)
  pub opened : PathMemory
  pub made : CreateMemory
  pub opened_new : PathMemory

abbrev pub o_creat : ℤ
o_creat = pos 1

-- `n` is `strlen(path)`. A directory's path loses its slash. The path is given back.
pub make_file : ℕ → System → List ℕ → ℕ → ℕ → CreateMemory → Option (System × List ℕ)
make_file fuel s path zero time memory = none
make_file fuel s path (suc n) time memory = get_elem? path n >>= (λ c.
    let dir_path = set path n 0 in
    let made_dir = do_mkdir fuel s dir_path time memory >>= (λ (s', done). some (s', dir_path)) in
    let made_file = do_mkfile fuel s path time memory >>= (λ (s', done). some (s', path)) in
    if c == slash then made_dir else made_file)

-- `do_open`, and once more where the file has to be made.
pub open_or_make : ℕ → System → List ℕ → ℤ → ℕ → OpenMemory → Option (System × ℤ)
unfolding make_file
open_or_make fuel s path oflag time memory = do_open fuel s path memory.opened >>= (λ (s1, fd).
    let again = strlen path >>= (λ n.
      make_file fuel s1 path n time memory.made
      >>= (λ (s2, path'). do_open fuel s2 path' memory.opened_new)) in
    if eq_ℤ fd minus_one && eq_ℤ oflag o_creat then again else some (s1, fd))

-- `fd + MAX_DEVICES`.
pub user_fd : ℤ → ℤ
user_fd (pos n) = pos (n + max_devices)
user_fd (negsuc n) =
    if ltb n max_devices then pos (max_devices - n - 1) else negsuc (n - max_devices)

module _ {W : Type 0} where
  pub enter_file : Kernel W → System × ℤ → Option (Kernel W × ℤ)
  unfolding user_fd
  enter_file k (s, fd) =
      let entered = insert_proc_file s.gft k.pft fd >>= (λ (gft, pft, pfd).
        some (record k { system = record s { gft = gft }; pft = pft }, user_fd pfd)) in
      if eq_ℤ fd minus_one then some (record k { system = s }, minus_one) else entered

  -- `pm_name2device` has returned. The copy of the path is used untested.
  pub open_named :
      ℕ
      → Driver W
      → Kernel W
      → List ℕ
      → ℤ
      → ℤ
      → ℕ
      → OpenMemory
      → Option Device
      → Option (Kernel W × ℤ)
  unfolding open_or_make enter_file
  open_named fuel drv k path oflag mode time memory none =
      open_or_make fuel k.system path oflag time memory >>= enter_file k
  open_named fuel drv k path oflag mode time memory (some dev) =
      drv.dev_open dev path oflag mode k.world >>= (λ (world, fd). some (with_world k world, fd))

  pub sys_open : ℕ → Driver W → Kernel W → List ℕ → ℤ → ℤ → ℕ → OpenMemory → Option (Kernel W × ℤ)
  unfolding open_named
  sys_open fuel drv k path oflag mode time memory = do
    copied ← strdup path memory.path
    copy ← copied
    dev ← pm_name2device k.devices copy
    open_named fuel drv k copy oflag mode time memory dev

-- `do_open` has returned in `sys_unlink`: -1 where there is no file, where it is in use and where it
-- is a directory that is not empty.
pub unlink_open : ℕ → List ℕ → ℕ → FileInfo → CreateMemory → System × ℤ → Option (System × ℤ)
unlink_open fuel path time info memory (s, fd) =
    let in_use = do_close s fd >>= (λ (s', closed). some (s', minus_one)) in
    let unused = get_file_info s.inodes s.gft fd info >>= (λ info'.
      do_close s fd >>= (λ (s', closed).
        let removed = do_remove fuel s' path time memory in
        if info'.mode == directory && ltb 0 info'.size then some (s', minus_one) else removed)) in
    let found =
      get_file s.gft fd
      >>= (λ i. get_elem? s.gft i >>= (λ f. if ltb 0 f.count then in_use else unused)) in
    if eq_ℤ fd minus_one then some (s, minus_one) else found

abbrev pub blank_info : FileInfo
blank_info = record {
  name = replicate name_size 0;
  mode = 0;
  size = 0;
  create_ts = 0;
  modify_ts = 0;
  num_links = 0;
}

module _ {W : Type 0} where
  -- `info` is the memory of a local variable.
  pub sys_unlink :
      ℕ → Kernel W → List ℕ → ℕ → FileInfo → PathMemory → CreateMemory → Option (Kernel W × ℤ)
  unfolding unlink_open
  sys_unlink fuel k path time info opened memory =
      do_open fuel k.system path opened
      >>= unlink_open fuel path time info memory
      >>= (λ (s, success). some (record k { system = s }, success))

  -- `do_open` has returned in `sys_stat`: the buffer behind the file descriptor's -1 is zero.
  pub stat_open : Kernel W → FileInfo → System × ℤ → Option (Kernel W × FileInfo × ℤ)
  stat_open k info (s, fd) =
      let found = insert_proc_file s.gft k.pft fd >>= (λ (gft, pft, pfd).
        get_file_info s.inodes gft fd info >>= (λ info'.
          do_close_pf (record s { gft = gft }) pft pfd
          >>= (λ (s', pft', closed). some (record k { system = s'; pft = pft' }, info', pos 0)))) in
      if eq_ℤ fd minus_one then some (record k { system = s }, blank_info, minus_one) else found

  pub sys_stat : ℕ → Kernel W → List ℕ → FileInfo → PathMemory → Option (Kernel W × FileInfo × ℤ)
  unfolding stat_open
  sys_stat fuel k path info opened = do_open fuel k.system path opened >>= stat_open k info
