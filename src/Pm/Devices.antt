-- ===== src/Pm/Devices.antt =====
-- The list of devices of src/kernel/pm/pm_devices.c, from `devices_head` on. A pointer to a device
-- is the device, and NULL is `none`; the outer `none` is a fault. The functions and the data of a
-- device are not looked at here, nor is the file that `pm_register_device` makes for it.
pub mod Register
mod Tests
use potatoes.Prelude.{ℕ, Option, none, some, List, [], ◌∷◌, if◌then◌else◌, ◌>>=◌}
use potatoes.Prelude.Int.{ℤ, pos, eq_ℤ}
use potatoes.Klib.Strings.{strcmp}

-- `name` is the memory at the name.
pub record Device : Type 0 where
  pub name : List ℕ
  pub fd : ℤ

pub pm_name2device : List Device → List ℕ → Option (Option Device)
pm_name2device [] name = some none
pm_name2device (dev ∷ devices) name =
    let rest = pm_name2device devices name in
    strcmp dev.name name >>= (λ d. if eq_ℤ d (pos 0) then some (some dev) else rest)

pub pm_fd2device : List Device → ℤ → Option Device
pm_fd2device [] fd = none
pm_fd2device (dev ∷ devices) fd = if eq_ℤ dev.fd fd then some dev else pm_fd2device devices fd

-- The list after a lookup by name and one by handle.
pub add_device : List Device → Device → Option Device → Option Device → List Device
add_device devices dev (some by_name) by_fd = devices
add_device devices dev none (some by_fd) = devices
add_device devices dev none none = dev ∷ devices

pub pm_register_device : List Device → Device → Option (List Device)
unfolding pm_name2device pm_fd2device add_device
pm_register_device devices dev =
    pm_name2device devices dev.name
    >>= (λ by_name. some (add_device devices dev by_name (pm_fd2device devices dev.fd)))
