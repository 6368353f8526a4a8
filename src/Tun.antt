-- ===== src/Tun.antt =====
-- src/netif/tunif.c on Linux: packets between the TUN device and the stack.
pub mod Packets
use ip2socks.Common.{
  ℕ, Bool, true, false, Option, none, some, List, [], ◌∷◌, Bytes, length, take, ltb, if◌then◌else◌,
}
use ip2socks.System.{
  at_most, memory, LwipErr, err_ok, err_mem, err_code, Cmd, pure, fault, ◌>>=◌, ◌>>◌,
}
use ip2socks.Device.{packet_read, packet_written, PacketTrace, Device, give_packet}

-- `BUFFER_SIZE` of tunif.c.
abbrev pub tun_buffer_size : ℕ
tun_buffer_size = 1500

-- The bytes, one by one, over those of a buffer; behind its end there is no memory to write.
unfoldable pub copy_over : Bytes → Bytes → Option Bytes
copy_over [] buf = some buf
copy_over (b ∷ bs) [] = none
copy_over (b ∷ bs) (x ∷ buf) =
    let rest = copy_over bs buf in elim rest [ none ↦ none | some r ↦ some (b ∷ r) ]

module _ (dev : Device) where
  -- A packet of the device in a `pbuf`, or NULL.
  unfoldable pub low_level_input : Cmd PacketTrace (Option Bytes)
  low_level_input t = elim (at_most tun_buffer_size (dev.read t)) [
    | none ↦ some (none, packet_read none ∷ t)
    | some bs ↦
        let t' = packet_read (some bs) ∷ t in
        if ltb 0 (length bs)
        then (if dev.alloc t' (length bs) then some (some bs, t') else some (none, t'))
        else some (none, t')
  ]

  unfoldable pub tunif_input : Cmd PacketTrace (Unit {0})
  tunif_input = do p ← low_level_input; elim p [ none ↦ pure tt | some bs ↦ give_packet dev bs ]

  -- As many bytes of the buffer as the packet has are written; a failure is only printed.
  unfoldable pub write_buffer : Bytes → Option Bytes → Cmd PacketTrace LwipErr
  write_buffer bs none t = none
  write_buffer bs (some buf) t =
      let packet = take (length bs) buf in
      some (err_ok, packet_written packet (dev.write t packet) ∷ t)

  -- A packet of the stack is copied over a buffer of 1500 bytes that holds garbage.
  unfoldable pub low_level_output : (ℕ → ℕ) → Bytes → Cmd PacketTrace LwipErr
  low_level_output garbage bs = write_buffer bs (copy_over bs (memory garbage tun_buffer_size 0))

  unfoldable pub tunif_output : (ℕ → ℕ) → Bytes → Cmd PacketTrace LwipErr
  tunif_output garbage bs = low_level_output garbage bs
