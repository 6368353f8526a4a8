-- ===== src/Setup/Tap.antt =====
-- How `tapif_init` of src/netif/tapif.c can end.
use ip2socks.Common.{
  ℕ, ◌<◌, ◌≡◌, inl, inr, refl, Bool, true, false, Option, none, some, ◌∷◌, [], Bytes, codes, length,
  arith, Option-cases, Bool-cases,
}
use ip2socks.System.{LwipErr, err_ok, err_mem}
use ip2socks.Device.{linux, Fate, going, exited}
use ip2socks.Setup.{
  tap, device_closed, device_opened, interface_set, command_run, flags_set, Calls, Kernel, Netif,
  ifconfig_command, cut, setnonblocking, create_device, configure_tap, init_tap, tapif_init,
  etharp_out,
}
use ip2socks.Setup.Texts.{cut-ifconfig_command}
use ip2socks.Setup.Tun.{IsNonblocking, setnonblocking-IsNonblocking}
use ip2socks.Setup.Outcomes.{Names, Created, unopened, unnamed, ready, create_device-Created}

module _ (k : Kernel) (n : Netif) (t : Calls) where
  -- The trace of a set-up that went through.
  abbrev pub tap_calls : ℕ → Bytes → ℕ → Bytes → ℕ → Bool → Calls
  tap_calls fd name ret command flags set =
      command_run command (some ret)
      ∷ flags_set fd flags set
      ∷ interface_set fd tap (some name)
      ∷ device_opened (some fd)
      ∷ t

  abbrev pub tap_netif : ℕ → Netif
  tap_netif fd = record n {
    name = codes "tp";
    output = etharp_out;
    mtu = 1500;
    hwaddr = 0x02 ∷ 0x12 ∷ 0x34 ∷ 0x56 ∷ 0x78 ∷ 0xab ∷ [];
    fd = some fd;
    link_up = true;
  }

  -- No memory; or an exit with 1, for one of three reasons: the device did not open, it got no name
  -- and was closed again, or its command could not be run; or the device is there, was asked not to
  -- block, and the command for its address and netmask, whole, was run.
  pub data TapEnded : Fate (LwipErr × Netif) → Calls → Type 0 where
    without_memory : k.has_memory t ≡ false → TapEnded (going (err_mem, n)) t
    not_opened : TapEnded (exited 1) (device_opened none ∷ t)
    not_named :
        (fd : ℕ)
        → TapEnded
            (exited 1)
            (device_closed fd ∷ interface_set fd tap none ∷ device_opened (some fd) ∷ t)
    not_run :
        (fd : ℕ) (name : Bytes) (flags : ℕ) (set : Bool)
        → IsNonblocking linux flags
        → TapEnded (exited 1) (
            command_run (ifconfig_command name n.gw n.netmask) none
            ∷ flags_set fd flags set
            ∷ interface_set fd tap (some name)
            ∷ device_opened (some fd)
            ∷ t)
    set_up :
        (fd : ℕ) (name : Bytes) (ret flags : ℕ) (set : Bool)
        → IsNonblocking linux flags
        → TapEnded
            (going (err_ok, tap_netif fd))
            (tap_calls fd name ret (ifconfig_command name n.gw n.netmask) flags set)

  abbrev Ended : Type 0
  Ended =
      (f : Fate (LwipErr × Netif)) × (u : Calls) × (tapif_init k n t ≡ some (f, u)) × TapEnded f u

  no_memory : k.has_memory t ≡ false → tapif_init k n t ≡ some (going (err_mem, n), t)
  unfolding tapif_init
  no_memory e = ground arith

  module _ (memory : k.has_memory t ≡ true) where
    no_device :
        (u : Calls) → create_device k tap t ≡ some (none, u) → tapif_init k n t ≡ some (exited 1, u)
    unfolding tapif_init init_tap
    no_device u e = ground arith

    module _ (fd : ℕ) (name : Bytes) (u v : Calls) (set : Bool)
        (e : create_device k tap t ≡ some (some (fd, name), u))
        (b : setnonblocking k linux fd u ≡ some (set, v)) where
      abbrev command : Bytes
      command = cut (ifconfig_command name n.gw n.netmask)

      abbrev after : Calls
      after = command_run command (k.system v command) ∷ v

      down : k.system v command ≡ none → tapif_init k n t ≡ some (exited 1, after)
      unfolding tapif_init init_tap configure_tap
      down s = ground arith

      up :
          (ret : ℕ)
          → k.system v command ≡ some ret
          → tapif_init k n t
            ≡ some (going (err_ok, tap_netif fd), command_run command (some ret) ∷ v)
      unfolding tapif_init init_tap configure_tap
      up ret s = ground arith

  set_up_by :
      (fd : ℕ) (name c : Bytes) (ret flags : ℕ) (set : Bool)
      → c ≡ ifconfig_command name n.gw n.netmask
      → IsNonblocking linux flags
      → TapEnded (going (err_ok, tap_netif fd)) (tap_calls fd name ret c flags set)
  set_up_by fd name c ret flags set same flagged = rw same (set_up fd name ret flags set flagged)

  not_run_by :
      (fd : ℕ) (name c : Bytes) (r : Option ℕ) (flags : ℕ) (set : Bool)
      → c ≡ ifconfig_command name n.gw n.netmask
      → r ≡ none
      → IsNonblocking linux flags
      → TapEnded (exited 1) (
          command_run c r
          ∷ flags_set fd flags set
          ∷ interface_set fd tap (some name)
          ∷ device_opened (some fd)
          ∷ t)
  not_run_by fd name c r flags set same e flagged = rw (same, e) (not_run fd name flags set flagged)

  configured :
      (fd : ℕ) (name : Bytes)
      → k.has_memory t ≡ true
      → create_device k tap t
        ≡ some (some (fd, name), interface_set fd tap (some name) ∷ device_opened (some fd) ∷ t)
      → length name < 16
      → Ended
  configured fd name memory e short =
      let u = interface_set fd tap (some name) ∷ device_opened (some fd) ∷ t in
      let (flags, set, b, flagged) = setnonblocking-IsNonblocking k linux fd u in
      let v = flags_set fd flags set ∷ u in
      elim (Option-cases (k.system v (command memory fd name u v set e b))) [
        | inl s ↦ (
          _,
          _,
          down memory fd name u v set e b s,
          not_run_by fd name _ _ flags set (cut-ifconfig_command name n.gw n.netmask short) s
              flagged,
        )
        | inr (ret, s) ↦ (
          going (err_ok, tap_netif fd),
          _,
          up memory fd name u v set e b ret s,
          set_up_by fd name _ ret flags set (cut-ifconfig_command name n.gw n.netmask short)
              flagged,
        )
      ]

  created :
      k.has_memory t ≡ true
      → (r : Option (Option (ℕ × Bytes) × Calls)) → create_device k tap t ≡ r
      → Created k tap t r
      → Ended
  created memory r e unopened = (exited 1, _, no_device memory _ e, not_opened)
  created memory r e (unnamed fd) = (exited 1, _, no_device memory _ e, not_named fd)
  created memory r e (ready fd name short) = configured fd name memory e short

  -- With a kernel whose interface names are shorter than 16 bytes, `tapif_init` ends in one of
  -- three ways: it returns `ERR_MEM`, for want of memory, and has called nothing; or the program
  -- has exited with 1, where the device did not open, got no name and was closed again, or `system`
  -- failed on its command; or it returns `ERR_OK`, the device's descriptor is in the `netif`, whose
  -- link is up, its flags were asked for with `O_NONBLOCK` in them, which may fail, and the last
  -- call ran the command, whole, that gives the device the gateway's address and the netmask,
  -- whatever status that ended with. The calls are just those named.
  pub tapif_init-TapEnded :
      Names k
      → (f : Fate (LwipErr × Netif)) × (u : Calls) × (tapif_init k n t ≡ some (f, u)) × TapEnded f u
  tapif_init-TapEnded names = elim (Bool-cases (k.has_memory t)) [
    | inl m ↦ created m _ refl (create_device-Created k tap t names)
    | inr m ↦ (going (err_mem, n), t, no_memory m, without_memory m)
  ]
