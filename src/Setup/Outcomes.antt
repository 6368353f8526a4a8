-- ===== src/Setup/Outcomes.antt =====
-- How the set-up of the devices can end.
use ip2socks.Common.{
  ℕ, ◌<◌, ◌≡◌, inl, inr, Option, none, some, ◌∷◌, Bytes, length, arith, Option-cases,
}
use ip2socks.Setup.{
  DeviceKind, device_opened, interface_set, device_closed, Calls, Kernel, name_device,
  create_device,
}

-- The kernel gives names that fit an interface's sixteen bytes.
abbrev pub Names : Kernel → Type 0
Names k =
    (t : Calls) (fd : ℕ) (kind : DeviceKind) (name : Bytes)
    → k.set_interface t fd kind ≡ some name
    → length name < 16

module _ (k : Kernel) (kind : DeviceKind) (t : Calls) where
  open_fails : k.open_device t ≡ none → create_device k kind t ≡ some (none, device_opened none ∷ t)
  unfolding create_device
  open_fails e = ground arith

  module _ (fd : ℕ) (e : k.open_device t ≡ some fd) where
    abbrev opened_trace : Calls
    opened_trace = device_opened (some fd) ∷ t

    name_fails :
        k.set_interface opened_trace fd kind ≡ none
        → create_device k kind t
          ≡ some (none, device_closed fd ∷ interface_set fd kind none ∷ opened_trace)
    unfolding create_device name_device
    name_fails n = ground arith

    named :
        (name : Bytes)
        → k.set_interface opened_trace fd kind ≡ some name
        → length name < 16
        → create_device k kind t
          ≡ some (some (fd, name), interface_set fd kind (some name) ∷ opened_trace)
    unfolding create_device name_device
    named name n short = ground arith

  -- The device was created, with a descriptor and a name, or the descriptor, if any, was closed
  -- again.
  pub data Created : Option (Option (ℕ × Bytes) × Calls) → Type 0 where
    unopened : Created (some (none, device_opened none ∷ t))
    unnamed :
        (fd : ℕ)
        → Created (
            some
              (none, device_closed fd ∷ interface_set fd kind none ∷ device_opened (some fd) ∷ t))
    ready :
        (fd : ℕ) (name : Bytes)
        → length name < 16
        → Created (
            some (some (fd, name), interface_set fd kind (some name) ∷ device_opened (some fd) ∷ t))

  pub create_device-Created : Names k → Created (create_device k kind t)
  create_device-Created names = elim (Option-cases (k.open_device t)) [
    | inl e ↦ rw (open_fails e) unopened
    | inr (fd, e) ↦ elim (Option-cases (k.set_interface (device_opened (some fd) ∷ t) fd kind)) [
      | inl n ↦ rw (name_fails fd e n) (unnamed fd)
      | inr (name, n) ↦
          let short = names _ fd kind name n in rw (named fd e name n short) (ready fd name short)
    ]
  ]
