-- ===== src/Setup.antt =====
-- How src/netif/tunif.c and src/netif/tapif.c, on Linux, set up their devices, with
-- `setnonblocking` of src/netif/socket_util.c.
pub mod Texts
pub mod Outcomes
pub mod Tun
pub mod Tap
use ip2socks.Common.{
  ℕ, ◌+◌, ◌/◌, ◌%◌, Bool, true, false, Option, none, some, List, [], ◌∷◌, ◌++◌, Bytes, codes,
  length, take, ltb, ◌==◌, if◌then◌else◌,
}
use ip2socks.Numbers.{decimal}
use ip2socks.System.{Ip4, LwipErr, err_ok, err_mem, Cmd, pure, fault, ◌>>=◌, ◌>>◌}
use ip2socks.Device.{Platform, linux, macos, Fate, going, exited}

pub data DeviceKind : Type 0 where
  tun tap : DeviceKind

-- The calls of the kernel and the shell; `none` is -1.
pub data SetupEvent : Type 0 where
  device_opened : Option ℕ → SetupEvent
  interface_set : ℕ → DeviceKind → Option Bytes → SetupEvent
  device_closed : ℕ → SetupEvent
  command_run : Bytes → Option ℕ → SetupEvent
  flags_set : ℕ → ℕ → Bool → SetupEvent
  control_opened : Option ℕ → SetupEvent
  info_asked : ℕ → Option ℕ → SetupEvent
  unit_connected : ℕ → ℕ → ℕ → Bool → SetupEvent
  name_asked : ℕ → Option Bytes → SetupEvent

abbrev pub Calls : Type 0
Calls = List SetupEvent

-- Their answers: `open` of /dev/net/tun, `ioctl` with the interface's name, `system`, `fcntl` in
-- its two uses, and whether `mem_malloc` has memory.
pub record Kernel : Type 0 where
  pub open_device : Calls → Option ℕ
  pub set_interface : Calls → ℕ → DeviceKind → Option Bytes
  pub system : Calls → Bytes → Option ℕ
  pub get_flags : Calls → ℕ → Option ℕ
  pub set_flags : Calls → ℕ → ℕ → Bool
  pub has_memory : Calls → Bool

-- What the set-up writes to a `struct netif`, and the addresses that it reads.
pub data Output : Type 0 where
  unset tunif_out etharp_out : Output

pub record Netif : Type 0 where
  pub gw : Ip4
  pub netmask : Ip4
  pub name : Bytes
  pub output : Output
  pub fd : Option ℕ
  pub hwaddr : Bytes
  pub link_up : Bool
  pub mtu : ℕ

-- `O_NONBLOCK`, as the platform numbers it.
abbrev pub o_nonblock : Platform → ℕ
o_nonblock linux = 2048
o_nonblock macos = 4

-- `flags | O_NONBLOCK`.
unfoldable pub with_nonblock : Platform → ℕ → ℕ
with_nonblock os flags = if flags / o_nonblock os % 2 == 0 then flags + o_nonblock os else flags

-- "%d.%d.%d.%d".
unfoldable pub dotted : Ip4 → Bytes
dotted ip = decimal ip.a ++ (b'.' ∷ decimal ip.b ++ (b'.' ∷ decimal ip.c ++ (b'.' ∷ decimal ip.d)))

-- `snprintf` into 1024 bytes, the last one NUL.
abbrev pub cut : Bytes → Bytes
cut s = take 1023 s

unfoldable pub addr_command : Ip4 → Bytes → Bytes
addr_command gw name = codes "/sbin/ip addr add " ++ (dotted gw ++ (codes "/24 dev " ++ name))

unfoldable pub up_command : Bytes → Bytes
up_command name = codes "/sbin/ip link set " ++ (name ++ codes " up")

unfoldable pub ifconfig_command : Bytes → Ip4 → Ip4 → Bytes
ifconfig_command name gw netmask =
    codes "/sbin/ifconfig "
    ++ (name ++ (codes " inet " ++ (dotted gw ++ (codes " netmask " ++ dotted netmask))))

module _ (k : Kernel) where
  abbrev pub run_command : Bytes → Cmd Calls (Option ℕ)
  run_command c t = let r = k.system t c in some (r, command_run c r ∷ t)

  -- A descriptor whose flags cannot be read has none of them.
  unfoldable pub setnonblocking : Platform → ℕ → Cmd Calls Bool
  setnonblocking os fd t =
      let flags : ℕ = elim (k.get_flags t fd) [ none ↦ 0 | some f ↦ f ] in
      let r = k.set_flags t fd (with_nonblock os flags) in
      some (r, flags_set fd (with_nonblock os flags) r ∷ t)

  -- The interface's name is copied into `IFNAMSIZ` bytes, 16.
  unfoldable pub name_device : ℕ → Option Bytes → Cmd Calls (Option (ℕ × Bytes))
  name_device fd none t = some (none, device_closed fd ∷ t)
  name_device fd (some name) t = if ltb (length name) 16 then some (some (fd, name), t) else none

  -- `tun_create` and `tap_create`, which differ in the flag of the interface.
  unfoldable pub create_device : DeviceKind → Cmd Calls (Option (ℕ × Bytes))
  create_device kind t =
      let fd? = k.open_device t in
      let t' = device_opened fd? ∷ t in
      elim fd? [
        | none ↦ some (none, t')
        | some fd ↦
            let name = k.set_interface t' fd kind in
            name_device fd name (interface_set fd kind name ∷ t')
      ]

  abbrev pub tun_create : Cmd Calls (Option (ℕ × Bytes))
  tun_create = create_device tun

  abbrev pub tap_create : Cmd Calls (Option (ℕ × Bytes))
  tap_create = create_device tap

  -- `low_level_init` of tunif.c once the device is there. The second command's result replaces the
  -- first's.
  unfoldable pub configure_tun : ℕ → Bytes → Netif → Cmd Calls (Fate Netif)
  configure_tun fd name n = do
    _ ← run_command (cut (addr_command n.gw name))
    ret ← run_command (cut (up_command name))
    elim ret [
      | none ↦ pure (exited 1)
      | some _ ↦ do _ ← setnonblocking linux fd; pure (going (record n { fd = some fd }))
    ]

  unfoldable pub init_tun : Netif → Cmd Calls (Fate Netif)
  init_tun n = do
    made ← tun_create
    elim made [
      | none ↦ pure (exited 1)
      | some (fd, name) ↦ if ltb fd 1 then pure (exited 1) else configure_tun fd name n
    ]

  -- `low_level_init` of tapif.c once the device is there.
  unfoldable pub configure_tap : ℕ → Bytes → Netif → Cmd Calls (Fate Netif)
  configure_tap fd name n = do
    _ ← setnonblocking linux fd
    ret ← run_command (cut (ifconfig_command name n.gw n.netmask))
    elim ret [
      | none ↦ pure (exited 1)
      | some _ ↦ pure (going (record n { fd = some fd; link_up = true }))
    ]

  unfoldable pub init_tap : Netif → Cmd Calls (Fate Netif)
  init_tap n = do
    made ← tap_create
    elim made [
      | none ↦ pure (exited 1)
      | some (fd, name) ↦
          configure_tap fd name (record n { hwaddr = 0x02 ∷ 0x12 ∷ 0x34 ∷ 0x56 ∷ 0x78 ∷ 0xab ∷ [] })
    ]

  abbrev pub returns_ok : Cmd Calls (Fate Netif) → Cmd Calls (Fate (LwipErr × Netif))
  returns_ok m = do
    r ← m
    elim r [ exited c ↦ pure (exited c) | going n ↦ pure (going (err_ok, n)) ]

  unfoldable pub tunif_init : Netif → Cmd Calls (Fate (LwipErr × Netif))
  tunif_init n t =
      if k.has_memory t
      then returns_ok (init_tun (record n { name = codes "tn"; output = tunif_out })) t
      else some (going (err_mem, n), t)

  unfoldable pub tapif_init : Netif → Cmd Calls (Fate (LwipErr × Netif))
  tapif_init n t =
      if k.has_memory t
      then returns_ok (init_tap (record n { name = codes "tp"; output = etharp_out; mtu = 1500 })) t
      else some (going (err_mem, n), t)
