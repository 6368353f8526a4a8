-- ===== src/Setup/Tun.antt =====
-- How `tunif_init` of src/netif/tunif.c can end.
use ip2socks.Common.{
  ℕ, ◌/◌, ◌%◌, ◌<◌, ◌≡◌, inl, inr, refl, Bool, true, false, Option, none, some, ◌∷◌, Bytes, codes,
  length, ltb, ◌==◌, arith, Option-cases, Bool-cases,
}
use ip2socks.System.{LwipErr, err_ok, err_mem}
use ip2socks.Device.{Platform, linux, macos, Fate, going, exited}
use ip2socks.Setup.{
  tun, device_closed, device_opened, interface_set, command_run, flags_set, Calls, Kernel, Netif,
  o_nonblock, with_nonblock, addr_command, up_command, cut, setnonblocking, create_device,
  configure_tun, init_tun, tunif_init, tunif_out,
}
use ip2socks.Setup.Texts.{cut-addr_command, cut-up_command}
use ip2socks.Setup.Outcomes.{Names, Created, unopened, unnamed, ready, create_device-Created}

-- The platform's `O_NONBLOCK` is set.
abbrev pub IsNonblocking : Platform → ℕ → Type 0
IsNonblocking os flags = flags / o_nonblock os % 2 ≡ 1

pub with_nonblock-IsNonblocking :
    (os : Platform) (flags : ℕ) → IsNonblocking os (with_nonblock os flags)
unfolding with_nonblock
with_nonblock-IsNonblocking linux flags = elim (Bool-cases (flags / 2048 % 2 == 0)) [
  | inl e ↦ rw e (ground arith)
  | inr e ↦ rw e (ground arith)
]
with_nonblock-IsNonblocking macos flags = elim (Bool-cases (flags / 4 % 2 == 0)) [
  | inl e ↦ rw e (ground arith)
  | inr e ↦ rw e (ground arith)
]

-- The descriptor is asked not to block, with its other flags kept.
pub setnonblocking-IsNonblocking :
    (k : Kernel) (os : Platform) (fd : ℕ) (u : Calls)
    → (flags : ℕ) × (set : Bool) × (setnonblocking k os fd u
        ≡ some (set, flags_set fd flags set ∷ u))
      × IsNonblocking os flags
unfolding setnonblocking
setnonblocking-IsNonblocking k os fd u = (_, _, refl, with_nonblock-IsNonblocking os _)

module _ (k : Kernel) (n : Netif) (t : Calls) where
  -- The trace of a set-up that went through.
  abbrev pub tun_calls : ℕ → Bytes → Option ℕ → ℕ → ℕ → Bool → Calls
  tun_calls fd name first second flags set =
      flags_set fd flags set
      ∷ command_run (up_command name) (some second)
      ∷ command_run (addr_command n.gw name) first
      ∷ interface_set fd tun (some name)
      ∷ device_opened (some fd)
      ∷ t

  abbrev pub tun_netif : ℕ → Netif
  tun_netif fd = record n { name = codes "tn"; output = tunif_out; fd = some fd }

  -- The calls up to the last command, with what the two commands gave.
  abbrev pub commanded : ℕ → Bytes → Option ℕ → Option ℕ → Calls
  commanded fd name first second =
      command_run (up_command name) second
      ∷ command_run (addr_command n.gw name) first
      ∷ interface_set fd tun (some name)
      ∷ device_opened (some fd)
      ∷ t

  -- No memory; or an exit with 1, for one of four reasons: the device did not open, it got no name
  -- and was closed again, its descriptor is not positive, or its second command could not be run;
  -- or the device is there, its second command was run, and it was asked not to block.
  pub data TunEnded : Fate (LwipErr × Netif) → Calls → Type 0 where
    without_memory : k.has_memory t ≡ false → TunEnded (going (err_mem, n)) t
    not_opened : TunEnded (exited 1) (device_opened none ∷ t)
    not_named :
        (fd : ℕ)
        → TunEnded
            (exited 1)
            (device_closed fd ∷ interface_set fd tun none ∷ device_opened (some fd) ∷ t)
    not_positive :
        (fd : ℕ) (name : Bytes)
        → fd < 1
        → TunEnded (exited 1) (interface_set fd tun (some name) ∷ device_opened (some fd) ∷ t)
    not_up :
        (fd : ℕ) (name : Bytes) (first : Option ℕ)
        → 0 < fd
        → TunEnded (exited 1) (commanded fd name first none)
    set_up :
        (fd : ℕ) (name : Bytes) (first : Option ℕ) (second flags : ℕ) (set : Bool)
        → 0 < fd
        → IsNonblocking linux flags
        → TunEnded (going (err_ok, tun_netif fd)) (tun_calls fd name first second flags set)

  abbrev Ended : Type 0
  Ended =
      (f : Fate (LwipErr × Netif)) × (u : Calls) × (tunif_init k n t ≡ some (f, u)) × TunEnded f u

  no_memory : k.has_memory t ≡ false → tunif_init k n t ≡ some (going (err_mem, n), t)
  unfolding tunif_init
  no_memory e = ground arith

  module _ (memory : k.has_memory t ≡ true) where
    no_device :
        (u : Calls) → create_device k tun t ≡ some (none, u) → tunif_init k n t ≡ some (exited 1, u)
    unfolding tunif_init init_tun
    no_device u e = ground arith

    zero_device :
        (fd : ℕ) (name : Bytes) (u : Calls)
        → create_device k tun t ≡ some (some (fd, name), u)
        → ltb fd 1 ≡ true
        → tunif_init k n t ≡ some (exited 1, u)
    unfolding tunif_init init_tun
    zero_device fd name u e z = ground arith

    module _ (fd : ℕ) (name : Bytes) (u : Calls)
        (e : create_device k tun t ≡ some (some (fd, name), u)) (z : ltb fd 1 ≡ false) where
      abbrev first : Option ℕ
      first = k.system u (cut (addr_command n.gw name))

      abbrev after_first : Calls
      after_first = command_run (cut (addr_command n.gw name)) first ∷ u

      abbrev second : Option ℕ
      second = k.system after_first (cut (up_command name))

      abbrev after_second : Calls
      after_second = command_run (cut (up_command name)) second ∷ after_first

      down : second ≡ none → tunif_init k n t ≡ some (exited 1, after_second)
      unfolding tunif_init init_tun configure_tun
      down s = ground arith

      up :
          (ret : ℕ) (set : Bool) (v : Calls)
          → second ≡ some ret
          → setnonblocking k linux fd after_second ≡ some (set, v)
          → tunif_init k n t ≡ some (going (err_ok, tun_netif fd), v)
      unfolding tunif_init init_tun configure_tun
      up ret set v s b = ground arith

  set_up_by :
      (fd : ℕ) (name c d : Bytes) (r s : Option ℕ) (ret flags : ℕ) (set : Bool)
      → c ≡ addr_command n.gw name
      → d ≡ up_command name
      → s ≡ some ret
      → 0 < fd
      → IsNonblocking linux flags
      → TunEnded (going (err_ok, tun_netif fd)) (
          flags_set fd flags set
          ∷ command_run d s
          ∷ command_run c r
          ∷ interface_set fd tun (some name)
          ∷ device_opened (some fd)
          ∷ t)
  set_up_by fd name c d r s ret flags set p q e pos flagged =
      rw (p, q, e) (set_up fd name r ret flags set pos flagged)

  not_up_by :
      (fd : ℕ) (name c d : Bytes) (r s : Option ℕ)
      → c ≡ addr_command n.gw name
      → d ≡ up_command name
      → s ≡ none
      → 0 < fd
      → TunEnded (exited 1) (
          command_run d s
          ∷ command_run c r
          ∷ interface_set fd tun (some name)
          ∷ device_opened (some fd)
          ∷ t)
  not_up_by fd name c d r s p q e pos = rw (p, q, e) (not_up fd name r pos)

  configured :
      (fd : ℕ) (name : Bytes)
      → k.has_memory t ≡ true
      → create_device k tun t
        ≡ some (some (fd, name), interface_set fd tun (some name) ∷ device_opened (some fd) ∷ t)
      → length name < 16
      → ltb fd 1 ≡ false
      → Ended
  configured fd name memory e short z =
      let u = interface_set fd tun (some name) ∷ device_opened (some fd) ∷ t in
      elim (Option-cases (second memory fd name u e z)) [
        | inl s ↦ (
          _,
          _,
          down memory fd name u e z s,
          not_up_by fd name _ _ _ _ (cut-addr_command n.gw name short) (cut-up_command name short) s
              (ground arith),
        )
        | inr (ret, s) ↦
            let v = after_second memory fd name u e z in
            let (flags, set, b, flagged) = setnonblocking-IsNonblocking k linux fd v in
            (
              going (err_ok, tun_netif fd),
              flags_set fd flags set ∷ v,
              up memory fd name u e z ret set _ s b,
              set_up_by fd name _ _ _ _ ret flags set (cut-addr_command n.gw name short)
                  (cut-up_command name short) s (ground arith) flagged,
            )
      ]

  created :
      k.has_memory t ≡ true
      → (r : Option (Option (ℕ × Bytes) × Calls)) → create_device k tun t ≡ r
      → Created k tun t r
      → Ended
  created memory r e unopened = (exited 1, _, no_device memory _ e, not_opened)
  created memory r e (unnamed fd) = (exited 1, _, no_device memory _ e, not_named fd)
  created memory r e (ready fd name short) = elim (Bool-cases (ltb fd 1)) [
    | inl z ↦ (exited 1, _, zero_device memory fd name _ e z, not_positive fd name (ground arith))
    | inr z ↦ configured fd name memory e short z
  ]

  -- With a kernel whose interface names are shorter than 16 bytes, `tunif_init` ends in one of
  -- three ways: it returns `ERR_MEM`, for want of memory, and has called nothing; or the program
  -- has exited with 1, where the device did not open, got no name and was closed again, or has a
  -- descriptor that is not positive, or where `system` failed on the second of the two commands,
  -- never for the first one's result; or it returns `ERR_OK`, the device's positive descriptor is
  -- in the `netif`, the two commands that were run, whole, give the gateway's address to the device
  -- and set it up, `system` ran the second one, whatever the first one gave and with whatever
  -- status, and the last call asks for the descriptor's flags with `O_NONBLOCK` in them, which may
  -- fail. The calls are just those named.
  pub tunif_init-TunEnded :
      Names k
      → (f : Fate (LwipErr × Netif)) × (u : Calls) × (tunif_init k n t ≡ some (f, u)) × TunEnded f u
  tunif_init-TunEnded names = elim (Bool-cases (k.has_memory t)) [
    | inl m ↦ created m _ refl (create_device-Created k tun t names)
    | inr m ↦ (going (err_mem, n), t, no_memory m, without_memory m)
  ]
