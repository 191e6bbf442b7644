-- ===== src/Pm/Devices/Register.antt =====
-- `pm_register_device`.
use potatoes.Prelude.{
  ℕ, ◌≡◌, ◌≢◌, ◌⊎◌, inl, inr, refl, sym, ap, ◌∙◌, true, false, Option, none, some, List, [], ◌∷◌,
  ◌>>=◌, if◌then◌else◌, Bool-cases,
}
use potatoes.Prelude.Int.{ℤ, pos, eq_ℤ, eq_ℤ→eq, eq_ℤ-self}
use potatoes.Klib.Strings.{strcmp}
use potatoes.Klib.Strings.Text.{IsText, cstr}
use potatoes.Klib.Strings.Compare.{difference, strcmp-zero_iff}
use potatoes.Pm.Devices.{Device, pm_name2device, pm_fd2device, add_device, pm_register_device}

abbrev pub NoName : List ℕ → List (List ℕ) → Type 0
NoName t [] = Unit
NoName t (u ∷ us) = (t ≢ u) × NoName t us

abbrev pub NoFd : ℤ → List Device → Type 0
NoFd fd [] = Unit
NoFd fd (dev ∷ devices) = (fd ≢ dev.fd) × NoFd fd devices

abbrev pub Bears : List ℕ → Device → Type 0
Bears t dev = (rest : List ℕ) × IsText t × (dev.name ≡ cstr t rest)

-- The devices bear the texts as names, and neither a name nor a handle occurs twice.
abbrev pub IsDevices : List (List ℕ) → List Device → Type 0
IsDevices [] [] = Unit
IsDevices [] (dev ∷ devices) = ⊥
IsDevices (t ∷ ts) [] = ⊥
IsDevices (t ∷ ts) (dev ∷ devices) =
    Bears t dev × NoName t ts × NoFd dev.fd devices × IsDevices ts devices

eq_ℤ-ne : (a b : ℤ) → eq_ℤ a b ≡ false → b ≢ a
eq_ℤ-ne a b e q = let t : eq_ℤ a b ≡ true = ap (eq_ℤ a) q ∙ eq_ℤ-self a in cc (t, e)

pm_fd2device-NoFd :
    (devices : List Device) (fd : ℤ)
    → ((pm_fd2device devices fd ≡ none) × NoFd fd devices)
      ⊎ ((d : Device) × (pm_fd2device devices fd ≡ some d) × ¬ (NoFd fd devices))
unfolding pm_fd2device
pm_fd2device-NoFd [] fd = inl (refl, tt)
pm_fd2device-NoFd (dev ∷ devices) fd = elim (Bool-cases (eq_ℤ dev.fd fd)) [
  | inl same ↦ rw same (inr (dev, refl, λ n. n.0 (sym (eq_ℤ→eq dev.fd fd same))))
  | inr other ↦ rw other (elim (pm_fd2device-NoFd devices fd) [
    | inl (e, n) ↦ inl (e, (eq_ℤ-ne dev.fd fd other, n))
    | inr (d, e, n) ↦ inr (d, e, λ m. n m.1)
  ])
]

-- `strcmp` of the name of a device and another text.
strcmp-Bears :
    (t u rest : List ℕ) (dev : Device)
    → Bears u dev
    → IsText t
    → ((d : ℤ) × (strcmp dev.name (cstr t rest) ≡ some d) × (eq_ℤ d (pos 0) ≡ true) × (t ≡ u))
      ⊎ ((d : ℤ) × (strcmp dev.name (cstr t rest) ≡ some d) × (eq_ℤ d (pos 0) ≡ false) × (t ≢ u))
strcmp-Bears t u rest dev (r, p, e) q =
    let (ran, zero_iff) = strcmp-zero_iff u t r rest p q in
    let ran' = ap (λ m. strcmp m (cstr t rest)) e ∙ ran in
    elim (Bool-cases (eq_ℤ (difference u t) (pos 0))) [
      | inl same ↦
          inl (difference u t, ran', same, sym (zero_iff.0 (eq_ℤ→eq (difference u t) (pos 0) same)))
      | inr other ↦ inr (
        difference u t,
        ran',
        other,
        λ w. eq_ℤ-ne (difference u t) (pos 0) other (sym (zero_iff.1 (sym w))),
      )
    ]

pm_name2device-NoName :
    (ts : List (List ℕ)) (devices : List Device) (t rest : List ℕ)
    → IsDevices ts devices
    → IsText t
    → ((pm_name2device devices (cstr t rest) ≡ some none) × NoName t ts)
      ⊎ ((d : Device) × (pm_name2device devices (cstr t rest) ≡ some (some d)) × ¬ (NoName t ts))
unfolding pm_name2device
pm_name2device-NoName [] [] t rest v p = inl (refl, tt)
pm_name2device-NoName [] (dev ∷ devices) t rest v p = absurd v
pm_name2device-NoName (u ∷ us) [] t rest v p = absurd v
pm_name2device-NoName (u ∷ us) (dev ∷ devices) t rest (b, _, _, v) p =
    elim (strcmp-Bears t u rest dev b p) [
      | inl (d, e, same, w) ↦ rw (e, same) (inr (dev, refl, λ n. n.0 w))
      | inr (d, e, other, w) ↦
          rw (e, other)
            (elim (pm_name2device-NoName us devices t rest v p) [
              | inl (e', n) ↦ inl (e', (w, n))
              | inr (d', e', n) ↦ inr (d', e', λ m. n m.1)
            ])
    ]

-- `pm_register_device` after its two lookups.
registered :
    (devices : List Device) (dev : Device) (m : List ℕ) (by_name by_fd : Option Device)
    → dev.name ≡ m
    → pm_name2device devices m ≡ some by_name
    → pm_fd2device devices dev.fd ≡ by_fd
    → pm_register_device devices dev ≡ some (add_device devices dev by_name by_fd)
unfolding pm_register_device
registered devices dev m by_name by_fd e ran found =
    ap (λ r. r >>= (λ o. some (add_device devices dev o (pm_fd2device devices dev.fd))))
      (ap (pm_name2device devices) e ∙ ran)
    ∙ ap (λ o. some (add_device devices dev by_name o)) found

-- Names and handles of the registered devices are distinct. Where neither the name nor the handle
-- of a device is taken, `pm_register_device` puts it in front; otherwise the list stays as it was.
-- Names and handles stay distinct, and the device is then found by its handle, where it was put in.
pub pm_register_device-IsDevices :
    (ts : List (List ℕ)) (devices : List Device) (dev : Device) (t rest : List ℕ)
    → IsDevices ts devices
    → IsText t
    → dev.name ≡ cstr t rest
    → ((pm_register_device devices dev ≡ some (dev ∷ devices))
        × IsDevices (t ∷ ts) (dev ∷ devices)
        × (pm_fd2device (dev ∷ devices) dev.fd ≡ some dev))
      ⊎ ((pm_register_device devices dev ≡ some devices) × ¬ (NoName t ts × NoFd dev.fd devices))
unfolding add_device pm_fd2device
pm_register_device-IsDevices ts devices dev t rest v p e =
    elim (pm_name2device-NoName ts devices t rest v p) [
      | inr (d, ran, taken) ↦
          inr (registered devices dev (cstr t rest) (some d) _ e ran refl, λ m. taken m.0)
      | inl (ran, free) ↦ elim (pm_fd2device-NoFd devices dev.fd) [
        | inr (d, found, taken) ↦
            inr (registered devices dev (cstr t rest) none (some d) e ran found, λ m. taken m.1)
        | inl (found, unused) ↦ inl (
          registered devices dev (cstr t rest) none none e ran found,
          ((rest, p, e), free, unused, v),
          ap (λ b. if b then some dev else pm_fd2device devices dev.fd) (eq_ℤ-self dev.fd),
        )
      ]
    ]

pub pm_name2device-nil : (name : List ℕ) → pm_name2device [] name ≡ some none
unfolding pm_name2device
pm_name2device-nil name = refl
