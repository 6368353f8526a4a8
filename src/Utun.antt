-- ===== src/Utun.antt =====
-- The parts of src/netif/tunif.c that are compiled on macOS, where a `utun` device is a control
-- socket.
pub mod Opening
pub mod Packets
pub mod Naming
pub mod Ending
use ip2socks.Common.{
  ℕ, zero, suc, ◌+◌, ◌-◌, ◌/◌, ◌%◌, Bool, true, false, Option, none, some, List, [], ◌∷◌, ◌++◌,
  Bytes, codes, length, take, drop, get_or, ltb, leb, ◌==◌, if◌then◌else◌,
}
use ip2socks.Numbers.{decimal}
use ip2socks.System.{Ip4, LwipErr, err_ok, err_mem, Cmd, pure, fault, ◌>>=◌, ◌>>◌, memory, at_most}
use ip2socks.Device.{
  macos, Fate, going, exited, packet_read, packet_written, PacketTrace, Device, give_packet,
}
use ip2socks.Setup.{
  control_opened, info_asked, unit_connected, name_asked, device_closed, Calls, Kernel, tunif_out,
  Netif, dotted, cut, run_command, setnonblocking, returns_ok,
}
use ip2socks.Tun.{tun_buffer_size}

-- The kernel's control sockets: `socket`, `ioctl` with the id that it finds, `connect` to a unit,
-- `getsockopt` with the text that it writes; the name that the headers give and the room for it;
-- and what `tun_name` holds before it is written.
pub record Control : Type 0 where
  pub open_control : Calls → Option ℕ
  pub ask_info : Calls → ℕ → Option ℕ
  pub connect_unit : Calls → ℕ → ℕ → ℕ → Bool
  pub ask_name : Calls → ℕ → Option Bytes
  pub utun_control_name : Bytes
  pub ctl_name_size : ℕ
  pub on_stack : ℕ → ℕ

-- `memcpy(dev, utunname, strlen(utunname))`, which copies no NUL, into 16 bytes.
unfoldable pub copy_name : Bytes → Bytes → Option Bytes
copy_name name dev = if ltb 16 (length name) then none else some (name ++ drop (length name) dev)

-- The text in an array, up to its NUL; without one the reading runs past the end.
unfoldable pub text_of : Bytes → Option Bytes
text_of [] = none
text_of (b ∷ bs) =
    let rest = text_of bs in
    if b == 0 then some [] else elim rest [ none ↦ none | some s ↦ some (b ∷ s) ]

-- "%s %d.%d.%d.%d %d.%d.%d.%d mtu %d netmask %d.%d.%d.%d up", behind "/sbin/ifconfig ".
unfoldable pub utun_command : Bytes → Ip4 → Ip4 → Bytes
utun_command name gw netmask =
    codes "/sbin/ifconfig "
    ++ (name
        ++ (b' ' ∷ dotted gw
            ++ (b' ' ∷ dotted gw
                ++ (codes " mtu "
                    ++ (decimal tun_buffer_size
                        ++ (codes " netmask " ++ (dotted netmask ++ codes " up")))))))

-- `tun_name`, of which only the first byte is set.
abbrev pub tun_name : (ℕ → ℕ) → Bytes
tun_name on_stack = 0 ∷ memory on_stack 15 1

module _ (k : Kernel) (mac : Control) where
  -- The end of `utun_create`, by what `getsockopt` gives. A failure leaves the descriptor open.
  unfoldable pub named_unit : ℕ → Bytes → Option Bytes → Cmd Calls (Option (ℕ × Bytes))
  named_unit fd dev none t = some (none, t)
  named_unit fd dev (some name) t = elim (copy_name name dev) [
    | none ↦ none
    | some dev' ↦ some (some (fd, dev'), t)
  ]

  -- From `connect` on.
  unfoldable pub connected_unit : ℕ → Bytes → ℕ → ℕ → Cmd Calls (Option (ℕ × Bytes))
  connected_unit fd dev id unit t =
      let ok = mac.connect_unit t fd id (unit + 1) in
      let t' = unit_connected fd id (unit + 1) ok ∷ t in
      let name = mac.ask_name t' fd in
      if ok
      then named_unit fd dev name (name_asked fd name ∷ t')
      else some (none, device_closed fd ∷ t')

  -- From `ioctl` on.
  unfoldable pub control_unit : ℕ → Bytes → ℕ → Cmd Calls (Option (ℕ × Bytes))
  control_unit fd dev unit t =
      let id? = mac.ask_info t fd in
      let t' = info_asked fd id? ∷ t in
      elim id? [
        | none ↦ some (none, device_closed fd ∷ t')
        | some id ↦ connected_unit fd dev id unit t'
      ]

  unfoldable pub utun_create : Bytes → ℕ → Cmd Calls (Option (ℕ × Bytes))
  utun_create dev unit t =
      let fd? = mac.open_control t in
      let t' = control_opened fd? ∷ t in
      if leb mac.ctl_name_size (length mac.utun_control_name)
      then some (none, t)
      else elim fd? [ none ↦ some (none, t') | some fd ↦ control_unit fd dev unit t' ]

  -- The loop of `tun_create`, with the number of units left and the next unit.
  unfoldable pub try_units : ℕ → ℕ → Bytes → Cmd Calls (Option (ℕ × Bytes))
  try_units zero unit dev = pure none
  try_units (suc n) unit dev = do
    made ← utun_create dev unit
    elim made [ none ↦ try_units n (suc unit) dev | some d ↦ pure (some d) ]

  unfoldable pub tun_create : Bytes → Cmd Calls (Option (ℕ × Bytes))
  tun_create dev = try_units 256 0 dev

  -- `low_level_init` once the device is there, with the array that holds its name.
  unfoldable pub configure_utun : ℕ → Bytes → Netif → Cmd Calls (Fate Netif)
  configure_utun fd dev n = elim (text_of dev) [
    | none ↦ fault
    | some name ↦ do
      ret ← run_command k (cut (utun_command name n.gw n.netmask))
      elim ret [
        | none ↦ pure (exited 1)
        | some _ ↦ do _ ← setnonblocking k macos fd; pure (going (record n { fd = some fd }))
      ]
  ]

  unfoldable pub low_level_init : Netif → Cmd Calls (Fate Netif)
  low_level_init n = do
    made ← tun_create (tun_name mac.on_stack)
    elim made [
      | none ↦ pure (exited 1)
      | some (fd, dev) ↦ if ltb fd 1 then pure (exited 1) else configure_utun fd dev n
    ]

  unfoldable pub tunif_init : Netif → Cmd Calls (Fate (LwipErr × Netif))
  tunif_init n t =
      if k.has_memory t
      then returns_ok k (low_level_init (record n { name = codes "tn"; output = tunif_out })) t
      else some (going (err_mem, n), t)

-- A length without the four bytes of the address family.
unfoldable pub utun_modified_len : Option ℕ → Option ℕ
utun_modified_len none = none
utun_modified_len (some len) = some (if ltb 4 len then len - 4 else 0)

-- `htonl(AF_INET6)` and `htonl(AF_INET)`, as macOS numbers them.
unfoldable pub family_of : ℕ → Bytes
family_of first = if first / 16 == 6 then 0 ∷ 0 ∷ 0 ∷ 30 ∷ [] else 0 ∷ 0 ∷ 0 ∷ 2 ∷ []

module _ (dev : Device) where
  -- `readv` into the family and the buffer: the length, or -1, and the buffer.
  unfoldable pub utun_read : Cmd PacketTrace (Option ℕ × Bytes)
  utun_read t =
      let frame = at_most (4 + tun_buffer_size) (dev.read t) in
      let t' = packet_read frame ∷ t in
      elim frame [
        | none ↦ some ((none, []), t')
        | some bs ↦ some ((utun_modified_len (some (length bs)), drop 4 bs), t')
      ]

  -- `writev` of the family and the packet, whose first byte has the version of IP. `garbage` is
  -- what the buffer holds when there is no such byte.
  unfoldable pub utun_write : ℕ → Bytes → Cmd PacketTrace Bool
  utun_write garbage bs t =
      let frame = family_of (get_or bs 0 garbage) ++ bs in
      let ok = dev.write t frame in some (ok, packet_written frame ok ∷ t)

  unfoldable pub low_level_input : Cmd PacketTrace (Option Bytes)
  low_level_input = do
    (len, buf) ← utun_read
    elim len [
      | none ↦ pure none
      | some n ↦
          if ltb 0 n
          then (λ t. if dev.alloc t n then some (some (take n buf), t) else some (none, t))
          else pure none
    ]

  unfoldable pub tunif_input : Cmd PacketTrace (Unit {0})
  tunif_input = do p ← low_level_input; elim p [ none ↦ pure tt | some bs ↦ give_packet dev bs ]

  unfoldable pub tunif_output : ℕ → Bytes → Cmd PacketTrace LwipErr
  tunif_output garbage bs =
      if ltb tun_buffer_size (length bs) then fault else (do _ ← utun_write garbage bs; pure err_ok)
