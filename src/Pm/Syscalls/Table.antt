-- ===== src/Pm/Syscalls/Table.antt =====
-- The system call table and `pm_syscall` of src/kernel/pm/pm_syscalls.c, with the numbers of
-- src/kernel/pm/syscalls_shared.h.
use potatoes.Prelude.{
  ℕ, ◌≡◌, refl, ◌↔◌, Option, none, some, List, [], ◌∷◌, ltb, if◌then◌else◌, get_elem?, arith,
}

pub data Handler : Type 0 where
  sys_log : Handler
  sys_exit : Handler
  sys_getpid : Handler
  sys_open : Handler
  sys_close : Handler
  sys_read : Handler
  sys_write : Handler
  sys_seek : Handler
  sys_malloc : Handler
  sys_free : Handler
  sys_unlink : Handler
  sys_stat : Handler
  sys_kill : Handler

abbrev pub syscall_table : List Handler
syscall_table =
    sys_log ∷ sys_exit ∷ sys_getpid ∷ sys_open ∷ sys_close ∷ sys_read ∷ sys_write ∷ sys_seek
    ∷ sys_malloc ∷ sys_free ∷ sys_unlink ∷ sys_stat ∷ sys_kill ∷ []

abbrev pub max_syscall : ℕ
max_syscall = 12

-- The number that syscalls_shared.h gives to the call.
pub syscall_number : Handler → ℕ
syscall_number sys_log = 0
syscall_number sys_exit = 1
syscall_number sys_getpid = 2
syscall_number sys_open = 3
syscall_number sys_close = 4
syscall_number sys_read = 5
syscall_number sys_write = 6
syscall_number sys_seek = 7
syscall_number sys_malloc = 8
syscall_number sys_free = 9
syscall_number sys_unlink = 10
syscall_number sys_stat = 11
syscall_number sys_kill = 12

-- The handler that is called; a number above MAX_SYSCALL is a panic.
pub pm_syscall : ℕ → Option Handler
pm_syscall id = if ltb max_syscall id then none else get_elem? syscall_table id

pm_syscall-at : (h : Handler) → pm_syscall (syscall_number h) ≡ some h
unfolding pm_syscall syscall_number
pm_syscall-at sys_log = refl
pm_syscall-at sys_exit = refl
pm_syscall-at sys_getpid = refl
pm_syscall-at sys_open = refl
pm_syscall-at sys_close = refl
pm_syscall-at sys_read = refl
pm_syscall-at sys_write = refl
pm_syscall-at sys_seek = refl
pm_syscall-at sys_malloc = refl
pm_syscall-at sys_free = refl
pm_syscall-at sys_unlink = refl
pm_syscall-at sys_stat = refl
pm_syscall-at sys_kill = refl

number-of : (id : ℕ) (h : Handler) → pm_syscall id ≡ some h → id ≡ syscall_number h
unfolding pm_syscall syscall_number
number-of id h e = ground arith

-- The table agrees with the numbers that programs use: `pm_syscall` calls a handler exactly where
-- the identifier is the number of that handler.
pub pm_syscall-number : (id : ℕ) (h : Handler) → (pm_syscall id ≡ some h) ↔ (id ≡ syscall_number h)
pm_syscall-number id h = (number-of id h, λ e. rw e (pm_syscall-at h))
