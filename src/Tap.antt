-- ===== src/Tap.antt =====
-- src/netif/tapif.c: frames between the TAP device and the stack.
pub mod Frames
use ip2socks.Common.{ℕ, ◌%◌, ◌^◌, Option, none, some, ◌∷◌, Bytes, length, ltb, if◌then◌else◌}
use ip2socks.System.{at_most, LwipErr, err_ok, Cmd, pure, ◌>>=◌}
use ip2socks.Device.{
  Fate, going, exited, packet_read, packet_written, PacketTrace, Device, give_packet,
}

-- The size of `buf`.
abbrev pub frame_size : ℕ
frame_size = 1514

module _ (dev : Device) where
  -- A frame of the device in a `pbuf`, or NULL; a `read` that fails ends the program.
  unfoldable pub low_level_input : Cmd PacketTrace (Fate (Option Bytes))
  low_level_input t = elim (at_most frame_size (dev.read t)) [
    | none ↦ some (exited 1, packet_read none ∷ t)
    | some bs ↦
        let t' = packet_read (some bs) ∷ t in
        if dev.alloc t' (length bs) then some (going (some bs), t') else some (going none, t')
  ]

  -- What `tapif_input` does with the frame.
  unfoldable pub take_frame : Fate (Option Bytes) → Cmd PacketTrace (Fate (Unit {0}))
  take_frame (exited n) = pure (exited n)
  take_frame (going none) = pure (going tt)
  take_frame (going (some bs)) = do _ ← give_packet dev bs; pure (going tt)

  unfoldable pub tapif_input : Cmd PacketTrace (Fate (Unit {0}))
  tapif_input = do p ← low_level_input; take_frame p

  -- A frame of the stack is copied into 1514 bytes and written; a failure is only printed.
  unfoldable pub low_level_output : Bytes → Cmd PacketTrace LwipErr
  low_level_output bs t =
      if ltb frame_size (length bs)
      then none
      else some (err_ok, packet_written bs (dev.write t bs) ∷ t)
