-- ===== src/Pm/Syscalls.antt =====
-- The system calls of src/kernel/pm/pm_syscalls.c that are about files and devices, with the system
-- call table. What a call writes into its arguments is its result. The functions of the device
-- drivers are a parameter, over a state `W` of their own. A fault and a panic are `none`.
pub mod Paths
pub mod Seek
pub mod Table
mod Tests
use potatoes.Prelude.{
  ℕ, zero, suc, ◌+◌, ◌-◌, ◌%◌, ◌^◌, Bool, true, false, Option, none, some, List, [], ◌∷◌, ◌==◌, ltb,
  leb, if◌then◌else◌, ◌>>=◌, get_elem?,
}
use potatoes.Prelude.Int.{ℤ, pos, negsuc, eq_ℤ}
use potatoes.Fs.Files.{
  ProcFile, FileInfo, minus_one, get_file, get_proc_file, update_proc_file, get_file_info,
  seek_position,
}
use potatoes.Fs.Tree.{System}
use potatoes.Fs.Tree.Edit.{directory}
use potatoes.Fs.Tree.Main.{do_read, do_write, do_close_pf}
use potatoes.Pm.Devices.{Device, pm_fd2device}

-- The functions that every device exports, after `device_t`.
pub record Driver (W : Type 0) : Type 0 where
  pub dev_open : Device → List ℕ → ℤ → ℤ → W → Option (W × ℤ)
  pub dev_close : Device → ℤ → W → Option (W × ℤ)
  pub dev_read : Device → ℤ → List ℕ → ℤ → W → Option (W × List ℕ × ℤ)
  pub dev_write : Device → ℤ → List ℕ → ℤ → W → Option (W × ℤ)
  pub dev_seek : Device → ℤ → ℤ → ℤ → W → Option (W × ℤ)

-- The file system, the file table of the active process, the list of devices and their state.
pub record Kernel (W : Type 0) : Type 0 where
  pub system : System
  pub pft : List ProcFile
  pub devices : List Device
  pub world : W

abbrev pub max_devices : ℕ
max_devices = 100

-- `fd < MAX_DEVICES`.
abbrev pub is_device : ℤ → Bool
is_device (pos n) = ltb n max_devices
is_device (negsuc n) = true

-- `fd - MAX_DEVICES`, where that is not negative.
abbrev pub proc_fd : ℤ → ℤ
proc_fd (pos n) = pos (n - max_devices)
proc_fd (negsuc n) = negsuc (n + max_devices)

-- An `int` as `size_t` and back.
pub to_uint32 : ℤ → ℕ
to_uint32 (pos n) = n % 2 ^ 32
to_uint32 (negsuc n) = 2 ^ 32 - n % 2 ^ 32 - 1

pub to_int32 : ℕ → ℤ
to_int32 n =
    if ltb (n % 2 ^ 32) (2 ^ 31) then pos (n % 2 ^ 32) else negsuc (2 ^ 32 - n % 2 ^ 32 - 1)

-- The size of the file that the entry leads to.
pub file_size : System → ProcFile → Option ℕ
file_size s pf = do
  i ← get_file s.gft pf.f_desc
  f ← get_elem? s.gft i
  p ← f.inode
  inode ← get_elem? s.inodes p
  some inode.size

-- The `switch` over SEEK_SET, SEEK_CUR and SEEK_END.
pub seek_to : System → ProcFile → ℤ → ℤ → Option ℕ
unfolding to_uint32 file_size
seek_to s pf offset whence =
    if eq_ℤ whence (pos 0)
    then some (to_uint32 offset)
    else if eq_ℤ whence (pos 1)
    then some (seek_position pf.position offset)
    else if eq_ℤ whence (pos 2)
    then (file_size s pf >>= (λ size. some (seek_position size offset)))
    else some pf.position

module _ {W : Type 0} where
  abbrev pub with_world : Kernel W → W → Kernel W
  with_world k world = record k { world = world }

  -- `pft_entry->pf_pos += n` at entry `i`.
  pub advance : Kernel W → ℕ → ℕ → Option (Kernel W)
  advance k i n =
      update_proc_file k.pft i (λ pf. record pf { position = (pf.position + n) % 2 ^ 32 })
      >>= (λ pft. some (record k { pft = pft }))

  pub close_device : Driver W → Kernel W → ℤ → Option Device → Option (Kernel W × ℤ)
  close_device drv k fd none = some (k, minus_one)
  close_device drv k fd (some dev) =
      drv.dev_close dev fd k.world >>= (λ (world, success). some (with_world k world, success))

  pub sys_close : Driver W → Kernel W → ℤ → Option (Kernel W × ℤ)
  unfolding close_device
  sys_close drv k (negsuc n) = some (k, minus_one)
  sys_close drv k (pos n) =
      if ltb n max_devices
      then close_device drv k (pos n) (pm_fd2device k.devices (pos n))
      else (do_close_pf k.system k.pft (pos (n - max_devices)) >>= (λ (system, pft, closed). some (
        record k { system = system; pft = pft },
        if eq_ℤ closed minus_one then minus_one else pos 0,
      )))

  pub read_device :
      Driver W → Kernel W → ℤ → List ℕ → ℤ → Option Device → Option (Kernel W × List ℕ × ℤ)
  read_device drv k fd buf size none = some (k, buf, minus_one)
  read_device drv k fd buf size (some dev) =
      drv.dev_read dev fd buf size k.world
      >>= (λ (world, buf', count). some (with_world k world, buf', count))

  -- `info` is the memory of a local variable of `do_read`.
  pub read_file : Kernel W → ℤ → List ℕ → ℤ → FileInfo → Option (Kernel W × List ℕ × ℤ)
  unfolding advance to_uint32 to_int32
  read_file k pfd buf size info = do
    i ← get_proc_file k.pft pfd
    pf ← get_elem? k.pft i
    (system, buf', count) ← do_read k.system pf.f_desc buf (to_uint32 size) pf.position info
    k' ← advance (record k { system = system }) i count
    some (k', buf', to_int32 count)

  pub sys_read : Driver W → Kernel W → ℤ → List ℕ → ℤ → FileInfo → Option (Kernel W × List ℕ × ℤ)
  unfolding read_device read_file
  sys_read drv k fd buf size info =
      if is_device fd
      then read_device drv k fd buf size (pm_fd2device k.devices fd)
      else read_file k (proc_fd fd) buf size info

  pub write_device : Driver W → Kernel W → ℤ → List ℕ → ℤ → Option Device → Option (Kernel W × ℤ)
  write_device drv k fd buf size none = some (k, minus_one)
  write_device drv k fd buf size (some dev) =
      drv.dev_write dev fd buf size k.world >>= (λ (world, count). some (with_world k world, count))

  pub write_file : Kernel W → ℤ → List ℕ → ℤ → FileInfo → ℕ → Option (Kernel W × ℤ)
  unfolding advance to_uint32 to_int32
  write_file k pfd buf size info time = do
    i ← get_proc_file k.pft pfd
    pf ← get_elem? k.pft i
    info' ← get_file_info k.system.inodes k.system.gft pf.f_desc info
    let written : Option (Kernel W × ℤ) =
        do_write k.system pf.f_desc buf (to_uint32 size) pf.position time >>= (λ (system, count).
          advance (record k { system = system }) i count >>= (λ k'. some (k', to_int32 count)))
    if info'.mode == directory then some (k, minus_one) else written

  pub sys_write : Driver W → Kernel W → ℤ → List ℕ → ℤ → FileInfo → ℕ → Option (Kernel W × ℤ)
  unfolding write_device write_file
  sys_write drv k fd buf size info time =
      if is_device fd
      then write_device drv k fd buf size (pm_fd2device k.devices fd)
      else write_file k (proc_fd fd) buf size info time

  pub seek_device : Driver W → Kernel W → ℤ → ℤ → ℤ → Option Device → Option (Kernel W × ℤ)
  seek_device drv k fd offset whence none = some (k, minus_one)
  seek_device drv k fd offset whence (some dev) =
      drv.dev_seek dev fd offset whence k.world >>= (λ (world, at). some (with_world k world, at))

  pub seek_file : Kernel W → ℤ → ℤ → ℤ → Option (Kernel W × ℤ)
  unfolding seek_to to_int32
  seek_file k pfd offset whence = do
    i ← get_proc_file k.pft pfd
    pf ← get_elem? k.pft i
    at ← seek_to k.system pf offset whence
    pft ← update_proc_file k.pft i (λ pf'. record pf' { position = at })
    some (record k { pft = pft }, to_int32 at)

  pub sys_seek : Driver W → Kernel W → ℤ → ℤ → ℤ → Option (Kernel W × ℤ)
  unfolding seek_device seek_file
  sys_seek drv k fd offset whence =
      if is_device fd
      then seek_device drv k fd offset whence (pm_fd2device k.devices fd)
      else seek_file k (proc_fd fd) offset whence
