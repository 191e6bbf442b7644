-- ===== src/Pm/Syscalls/Tests.antt =====
-- System calls on a file "ab" that one process has open.
use potatoes.Prelude.{
  zero, suc, ◌≡◌, ◌↔◌, refl, sym, ap, true, [], ◌∷◌, some, none, arith, replicate, some-eq, ◌∙◌,
  inr,
}
use potatoes.Prelude.Int.{pos, eq_ℤ}
use potatoes.Klib.Strings.Text.{cstr}
use potatoes.Fs.Inodes.Bytes.{IsDInode}
use potatoes.Fs.Inodes.Disk.Persist.{content, Stores}
use potatoes.Fs.Bmap.Tests.{empty, empty-IsBmap}
use potatoes.Fs.Files.{ProcFile, minus_one}
use potatoes.Fs.Files.Process.{IsProcTable}
use potatoes.Fs.Files.Tests.{inode, files, file-Open, files_named}
use potatoes.Fs.Tree.{System}
use potatoes.Fs.Tree.Search.Root.{strdup-cstr}
use potatoes.Fs.Tree.Main.{do_open}
use potatoes.Fs.Tree.Main.Calls.{do_open-fs_open}
use potatoes.Pm.Devices.Register.{pm_name2device-nil}
use potatoes.Fs.Tree.Open.{PathMemory, fs_close}
use potatoes.Fs.Tree.Open.Close.{Released, Spared, fs_close-Released, fs_open-open}
use potatoes.Fs.Tree.Create.{CreateMemory}
use potatoes.Pm.Syscalls.{Kernel, Driver, sys_seek}
use potatoes.Pm.Syscalls.Seek.{sys_seek-tell}
use potatoes.Pm.Syscalls.Paths.{OpenMemory, blank_info, sys_open, sys_unlink}
use potatoes.Pm.Syscalls.Paths.InUse.{AllInUse, sys_unlink-in_use, sys_open-full}
use potatoes.Pm.Syscalls.Table.{Handler, pm_syscall, syscall_number, pm_syscall-number}

abbrev system : System
system = record {
  blocks = record { bm = empty; addr_cache = []; d_inode_cache = [] };
  inodes = inode ∷ [];
  gft = files;
  dir_cache = [];
  m_inode_cache = inode;
}

inode-IsDInode : IsDInode (content inode)
inode-IsDInode = record {
  mode = omega arith;
  size = omega arith;
  create_ts = omega arith;
  modify_ts = omega arith;
  pointers = refl;
  words = omega arith;
  single_indirect = omega arith;
  double_indirect = omega arith;
}

-- The table of the process has one entry, which is in use.
abbrev kernel : Kernel (Unit {0})
kernel = record {
  system = system;
  pft = record { desc = pos 0; f_desc = pos 0; position = 7 } ∷ [];
  devices = [];
  world = tt;
}

abbrev no_memory : PathMemory
no_memory = record { copy = none; name = none }

abbrev create_memory : CreateMemory
create_memory = record {
  copy = none;
  path = none;
  path_copy = none;
  file_name = none;
  dir_inode = inode;
  new_inode = none;
  truncated = no_memory;
}

sys_unlink-in_use_example :
    (s' : System) × (sys_unlink 9 kernel
        (cstr (97 ∷ 98 ∷ []) [])
        5
        blank_info
        no_memory
        create_memory
      ≡ some (record kernel { system = s' }, minus_one))
    × Released system file-Open s'
    × Stores s'.blocks.bm.dev 40 inode
    × Spared system 40 s'
sys_unlink-in_use_example =
    sys_unlink-in_use kernel file-Open empty-IsBmap.device (omega arith) inode-IsDInode
      (omega arith) (97 ∷ 98 ∷ []) [] (omega arith) (λ e. cc e) files_named 9 5 blank_info no_memory
      create_memory

pm_syscall-number_example :
    (pm_syscall 7 ≡ some Handler.sys_seek) ↔ (7 ≡ syscall_number Handler.sys_seek)
pm_syscall-number_example = pm_syscall-number 7 Handler.sys_seek

-- No device is ever opened.
abbrev driver : Driver (Unit {0})
driver = record {
  dev_open = λ dev path oflag mode world. none;
  dev_close = λ dev fd world. none;
  dev_read = λ dev fd buf size world. none;
  dev_write = λ dev fd buf size world. none;
  dev_seek = λ dev fd offset whence world. none;
}

abbrev open_memory : OpenMemory
open_memory = record {
  path = some (replicate 3 7);
  opened = no_memory;
  made = create_memory;
  opened_new = no_memory;
}

full : AllInUse kernel.pft
full zero y e = ap (λ (pf : ProcFile). eq_ℤ pf.desc minus_one) (sym (some-eq e))
full (suc j) y e = absurd (cc e)

full-IsProcTable : IsProcTable kernel.pft
full-IsProcTable zero x e = inr (ap (λ (y : ProcFile). y.desc) (sym (some-eq e)))
full-IsProcTable (suc i) x e = absurd (cc)

reopened : do_open 9 system (cstr (97 ∷ 98 ∷ []) []) no_memory ≡ some (system, pos 0)
reopened =
    do_open-fs_open 9 system (cstr (97 ∷ 98 ∷ []) []) no_memory
    ∙ fs_open-open 9 system (97 ∷ 98 ∷ []) [] no_memory 0 (omega arith) (λ e. cc e) files_named

sys_open-full_example :
    sys_open 9 driver kernel (cstr (97 ∷ 98 ∷ []) []) (pos 0) (pos 0) 5 open_memory
    ≡ some (kernel, pos 99)
sys_open-full_example =
    sys_open-full 9 driver kernel (cstr (97 ∷ 98 ∷ []) []) (cstr (97 ∷ 98 ∷ []) []) (pos 0) (pos 0)
      5 open_memory system 0
      (strdup-cstr (97 ∷ 98 ∷ []) [] (replicate 3 7) (omega arith) (omega arith))
      (pm_name2device-nil (cstr (97 ∷ 98 ∷ []) [])) reopened full-IsProcTable full

sys_seek-tell_example :
    (k' k'' : Kernel (Unit {0})) × (sys_seek driver kernel (pos 100) (pos 12) (pos 0)
      ≡ some (k', pos 12))
    × (sys_seek driver k' (pos 100) (pos 0) (pos 1) ≡ some (k'', pos 12))
sys_seek-tell_example =
    sys_seek-tell driver kernel 0 (record { desc = pos 0; f_desc = pos 0; position = 7 }) (pos 12)
      full-IsProcTable refl refl (omega arith)

fs_close-Released_example :
    (s' : System) × (fs_close system (pos 0) ≡ some (s', true))
    × Stores s'.blocks.bm.dev 40 inode
    × Released system file-Open s'
    × Spared system 40 s'
fs_close-Released_example =
    fs_close-Released system file-Open empty-IsBmap.device (omega arith) inode-IsDInode
