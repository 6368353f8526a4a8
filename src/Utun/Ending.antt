-- ===== src/Utun/Ending.antt =====
-- How `tunif_init` of src/netif/tunif.c can end on macOS, where the stack held zeros.
use ip2socks.Common.{
  ℕ, ◌+◌, ◌<◌, ◌≡◌, ◌∙◌, ap, inl, inr, refl, Bool, true, false, Option, none, some, ◌∷◌, [], ◌++◌,
  Bytes, codes, length, drop, take_all, length-append, ltb, arith, Option-cases, Bool-cases,
}
use ip2socks.System.{Ip4, LwipErr, err_ok, err_mem, memory}
use ip2socks.Numbers.{decimal}
use ip2socks.Device.{macos, Fate, going, exited}
use ip2socks.Setup.{
  name_asked, unit_connected, command_run, flags_set, Calls, Kernel, Netif, dotted, cut,
  setnonblocking, tunif_out,
}
use ip2socks.Setup.Texts.{length-dotted, length-decimal}
use ip2socks.Setup.Tun.{IsNonblocking, setnonblocking-IsNonblocking}
use ip2socks.Utun.{
  Control, tun_name, text_of, utun_command, tun_create, configure_utun, low_level_init, tunif_init,
}
use ip2socks.Utun.Opening.{IsText, UnitNames, Made, no_unit, unit_made}
use ip2socks.Utun.Opening.Loop.{tun_create-Accounted}
use ip2socks.Utun.Naming.{drop-memory, text_of-text}

cut-utun_command :
    (name : Bytes) (gw netmask : Ip4)
    → length name < 16
    → cut (utun_command name gw netmask) ≡ utun_command name gw netmask
unfolding utun_command
cut-utun_command name gw netmask h =
    let mask = dotted netmask ++ codes " up" in
    let mtu = decimal 1500 ++ (codes " netmask " ++ mask) in
    let peer = dotted gw ++ (codes " mtu " ++ mtu) in
    let own = dotted gw ++ (b' ' ∷ peer) in
    take_all 1023 (utun_command name gw netmask) (
      omega (
        arith,
        length-append name (b' ' ∷ own),
        length-append (dotted gw) (b' ' ∷ peer),
        length-append (dotted gw) (codes " mtu " ++ mtu),
        length-append (decimal 1500) (codes " netmask " ++ mask),
        length-append (dotted netmask) (codes " up"),
        length-dotted gw,
        length-dotted netmask,
        length-decimal 1500,
      ))

-- The name is read back from the array that it was copied to.
text_of-name :
    (z : ℕ → ℕ) (name : Bytes)
    → ((i : ℕ) → z i ≡ 0)
    → IsText name
    → length name < 16
    → text_of (name ++ drop (length name) (tun_name z)) ≡ some name
text_of-name z [] zeros plain short = text_of-text [] (memory z 15 1) plain
text_of-name z (b ∷ bs) zeros plain short =
    let (rest, tail) =
      drop-memory z (length bs) 15 1 (length (b ∷ bs)) (omega arith) (omega arith) in
    ap (λ x. text_of ((b ∷ bs) ++ x)) (tail ∙ ap (λ x. x ∷ rest) (zeros (length (b ∷ bs))))
    ∙ text_of-text (b ∷ bs) rest plain

module _ (k : Kernel) (mac : Control) (n : Netif) (t : Calls) where
  abbrev pub utun_netif : ℕ → Netif
  utun_netif fd = record n { name = codes "tn"; output = tunif_out; fd = some fd }

  -- No memory; or an exit with 1, for one of three reasons: `tun_create` found no unit, the
  -- descriptor is not positive, or the command could not be run; or the device is there, was
  -- connected to a unit below 256, told its name, was configured with it and asked not to block.
  pub data UtunEnded : Fate (LwipErr × Netif) → Calls → Type 0 where
    without_memory : k.has_memory t ≡ false → UtunEnded (going (err_mem, n)) t
    no_device_found :
        (u : Calls)
        → tun_create k mac (tun_name mac.on_stack) t ≡ some (none, u)
        → UtunEnded (exited 1) u
    not_positive :
        (fd id unit : ℕ) (name : Bytes) (u : Calls)
        → fd < 1
        → UtunEnded
            (exited 1)
            (name_asked fd (some name) ∷ unit_connected fd id (unit + 1) true ∷ u)
    not_run :
        (fd id unit : ℕ) (name : Bytes) (u : Calls)
        → 0 < fd
        → UtunEnded (exited 1) (
            command_run (utun_command name n.gw n.netmask) none
            ∷ name_asked fd (some name)
            ∷ unit_connected fd id (unit + 1) true
            ∷ u)
    set_up :
        (fd id unit : ℕ) (name : Bytes) (ret flags : ℕ) (set : Bool) (u : Calls)
        → 0 < fd
        → unit < 256
        → IsNonblocking macos flags
        → UtunEnded (going (err_ok, utun_netif fd)) (
            flags_set fd flags set
            ∷ command_run (utun_command name n.gw n.netmask) (some ret)
            ∷ name_asked fd (some name)
            ∷ unit_connected fd id (unit + 1) true
            ∷ u)

  abbrev Ended : Type 0
  Ended =
      (f : Fate (LwipErr × Netif)) × (u : Calls) × (tunif_init k mac n t ≡ some (f, u))
      × UtunEnded f u

  no_memory : k.has_memory t ≡ false → tunif_init k mac n t ≡ some (going (err_mem, n), t)
  unfolding tunif_init
  no_memory e = ground arith

  abbrev array : Bytes
  array = tun_name mac.on_stack

  module _ (memory : k.has_memory t ≡ true) where
    no_device :
        (u : Calls)
        → tun_create k mac array t ≡ some (none, u)
        → tunif_init k mac n t ≡ some (exited 1, u)
    unfolding tunif_init low_level_init
    no_device u e = ground arith

    zero_device :
        (fd : ℕ) (dev : Bytes) (u : Calls)
        → tun_create k mac array t ≡ some (some (fd, dev), u)
        → ltb fd 1 ≡ true
        → tunif_init k mac n t ≡ some (exited 1, u)
    unfolding tunif_init low_level_init
    zero_device fd dev u e z = ground arith

    module _ (fd : ℕ) (dev name : Bytes) (u : Calls)
        (e : tun_create k mac array t ≡ some (some (fd, dev), u)) (z : ltb fd 1 ≡ false)
        (named : text_of dev ≡ some name) where
      abbrev command : Bytes
      command = cut (utun_command name n.gw n.netmask)

      abbrev after : Option ℕ → Calls
      after r = command_run command r ∷ u

      down : k.system u command ≡ none → tunif_init k mac n t ≡ some (exited 1, after none)
      unfolding tunif_init low_level_init configure_utun
      down s = ground arith

      up :
          (ret : ℕ) (set : Bool) (v : Calls)
          → k.system u command ≡ some ret
          → setnonblocking k macos fd (after (some ret)) ≡ some (set, v)
          → tunif_init k mac n t ≡ some (going (err_ok, utun_netif fd), v)
      unfolding tunif_init low_level_init configure_utun
      up ret set v s b = ground arith

  set_up_by :
      (fd id unit : ℕ) (name c : Bytes) (r : Option ℕ) (ret flags : ℕ) (set : Bool) (u : Calls)
      → c ≡ utun_command name n.gw n.netmask
      → r ≡ some ret
      → 0 < fd
      → unit < 256
      → IsNonblocking macos flags
      → UtunEnded (going (err_ok, utun_netif fd)) (
          flags_set fd flags set
          ∷ command_run c r
          ∷ name_asked fd (some name)
          ∷ unit_connected fd id (unit + 1) true
          ∷ u)
  set_up_by fd id unit name c r ret flags set u same ran pos below flagged =
      rw (same, ran) (set_up fd id unit name ret flags set u pos below flagged)

  not_run_by :
      (fd id unit : ℕ) (name c : Bytes) (r : Option ℕ) (u : Calls)
      → c ≡ utun_command name n.gw n.netmask
      → r ≡ none
      → 0 < fd
      → UtunEnded
          (exited 1)
          (command_run c r ∷ name_asked fd (some name) ∷ unit_connected fd id (unit + 1) true ∷ u)
  not_run_by fd id unit name c r u same ran pos = rw (same, ran) (not_run fd id unit name u pos)

  module _ (memory : k.has_memory t ≡ true) (zeros : (i : ℕ) → mac.on_stack i ≡ 0) where
    configured :
        (fd id unit : ℕ) (name : Bytes) (u : Calls)
        → tun_create k mac array t
          ≡ some (
            some (fd, name ++ drop (length name) array),
            name_asked fd (some name) ∷ unit_connected fd id (unit + 1) true ∷ u,
          )
        → unit < 256
        → length name < 16
        → IsText name
        → ltb fd 1 ≡ false
        → Ended
    configured fd id unit name u e below short plain z =
        let dev = name ++ drop (length name) array in
        let v = name_asked fd (some name) ∷ unit_connected fd id (unit + 1) true ∷ u in
        let named = text_of-name mac.on_stack name zeros plain short in
        elim (Option-cases (k.system v (command memory fd dev name v e z named))) [
          | inl s ↦ (
            _,
            _,
            down memory fd dev name v e z named s,
            not_run_by fd id unit name _ _ u (cut-utun_command name n.gw n.netmask short) refl
                (ground arith),
          )
          | inr (ret, s) ↦
              let w = after memory fd dev name v e z named (some ret) in
              let (flags, set, b, flagged) = setnonblocking-IsNonblocking k macos fd w in
              (
                going (err_ok, utun_netif fd),
                flags_set fd flags set ∷ w,
                up memory fd dev name v e z named ret set _ s b,
                set_up_by fd id unit name _ _ ret flags set u
                    (cut-utun_command name n.gw n.netmask short) refl (ground arith) below flagged,
              )
        ]

    created :
        (d : Option (ℕ × Bytes)) (u : Calls)
        → tun_create k mac array t ≡ some (d, u)
        → Made 256 array d u
        → Ended
    created d u e (no_unit u') = (exited 1, _, no_device memory _ e, no_device_found _ e)
    created d u e (unit_made fd id unit name u' below short plain) = elim (Bool-cases (ltb fd 1)) [
      | inl z ↦ (
        exited 1,
        _,
        zero_device memory fd _ _ e z,
        not_positive fd id unit name u' (ground arith),
      )
      | inr z ↦ configured fd id unit name u' e below short plain z
    ]

  -- On macOS, with interface names that are texts shorter than 16 bytes and a stack that held
  -- zeros, `tunif_init` ends in one of three ways: it returns `ERR_MEM`, for want of memory, and
  -- has called nothing; or the program has exited with 1, where `tun_create` found no unit, or gave
  -- a descriptor that is not positive, or `system` failed on the command; or it returns `ERR_OK`,
  -- with the positive descriptor of a unit below 256 in the `netif`, after the command for the name
  -- that the kernel gave, whole, was run, with whatever status, and the descriptor's flags were
  -- asked for with macOS's `O_NONBLOCK` in them, which may fail.
  pub tunif_init-UtunEnded :
      UnitNames mac
      → ((i : ℕ) → mac.on_stack i ≡ 0)
      → (f : Fate (LwipErr × Netif)) × (u : Calls) × (tunif_init k mac n t ≡ some (f, u))
        × UtunEnded f u
  tunif_init-UtunEnded names zeros = elim (Bool-cases (k.has_memory t)) [
    | inl m ↦
        let (d, u, e, counted, made) = tun_create-Accounted k mac names array t in
        created m zeros d u e made
    | inr m ↦ (going (err_mem, n), t, no_memory m, without_memory m)
  ]
