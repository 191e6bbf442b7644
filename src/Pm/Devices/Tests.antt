-- ===== src/Pm/Devices/Tests.antt =====
-- Two devices, and a third one.
use potatoes.Prelude.{ℕ, ◌≡◌, ◌⊎◌, refl, some, List, [], ◌∷◌, arith}
use potatoes.Prelude.Int.{pos}
use potatoes.Klib.Strings.Text.{cstr}
use potatoes.Pm.Devices.{Device, pm_fd2device, pm_register_device}
use potatoes.Pm.Devices.Register.{NoName, NoFd, IsDevices, pm_register_device-IsDevices}

abbrev device : ℕ → ℕ → Device
device c fd = record { name = cstr (c ∷ []) (9 ∷ []); fd = pos fd }

abbrev devices : List Device
devices = device 65 1 ∷ []

pm_register_device-IsDevices_example :
    ((pm_register_device devices (device 66 2) ≡ some (device 66 2 ∷ devices))
      × IsDevices ((66 ∷ []) ∷ (65 ∷ []) ∷ []) (device 66 2 ∷ devices)
      × (pm_fd2device (device 66 2 ∷ devices) (pos 2) ≡ some (device 66 2)))
    ⊎ ((pm_register_device devices (device 66 2) ≡ some devices)
        × ¬ (NoName (66 ∷ []) ((65 ∷ []) ∷ []) × NoFd (pos 2) devices))
pm_register_device-IsDevices_example =
    pm_register_device-IsDevices ((65 ∷ []) ∷ []) devices (device 66 2) (66 ∷ []) (9 ∷ [])
      ((9 ∷ [], omega arith, refl), tt, tt, tt) (omega arith) refl
