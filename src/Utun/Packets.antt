-- ===== src/Utun/Packets.antt =====
-- Packets of src/netif/tunif.c on macOS, which carry four bytes more on the device.
use ip2socks.Common.{
  ℕ, ◌+◌, ◌≤◌, ◌≡◌, ◌∙◌, ap, true, some, ◌∷◌, ◌++◌, Bytes, length, take, drop, take_all, arith,
}
use ip2socks.System.{at_most, err_ok}
use ip2socks.Device.{packet_read, packet_written, PacketTrace, Device, give_packet}
use ip2socks.Utun.{
  utun_modified_len, family_of, utun_read, utun_write, low_level_input, tunif_input, tunif_output,
}

-- What is on the device for a packet that begins with `b`.
abbrev pub framed : ℕ → Bytes → Bytes
framed b bs = family_of b ++ (b ∷ bs)

length-framed : (b : ℕ) (bs : Bytes) → length (framed b bs) ≡ 5 + length bs
unfolding family_of
length-framed b bs = ground arith

drop-framed : (b : ℕ) (bs : Bytes) → drop 4 (framed b bs) ≡ b ∷ bs
unfolding family_of
drop-framed b bs = ground arith

read_whole :
    (dev : Device) (b : ℕ) (bs : Bytes) (u : PacketTrace)
    → length (b ∷ bs) ≤ 1500
    → dev.read u ≡ some (framed b bs)
    → at_most 1504 (dev.read u) ≡ some (framed b bs)
unfolding at_most
read_whole dev b bs u short e =
    ap (at_most 1504) e ∙ ap some (take_all 1504 (framed b bs) (omega (arith, length-framed b bs)))

module _ (dev : Device) (b : ℕ) (bs : Bytes) (short : length (b ∷ bs) ≤ 1500) where
  written :
      (garbage : ℕ) (t : PacketTrace)
      → tunif_output dev garbage (b ∷ bs) t
        ≡ some (err_ok, packet_written (framed b bs) (dev.write t (framed b bs)) ∷ t)
  unfolding tunif_output utun_write
  written garbage t = ground arith

  module _ (u : PacketTrace) (e : at_most 1504 (dev.read u) ≡ some (framed b bs)) where
    read_frame :
        utun_read dev u
        ≡ some ((some (length (b ∷ bs)), b ∷ bs), packet_read (some (framed b bs)) ∷ u)
    unfolding utun_read utun_modified_len
    read_frame = ground (arith, length-framed b bs, drop-framed b bs)

    whole : take (length (b ∷ bs)) (b ∷ bs) ≡ b ∷ bs
    whole = take_all (length (b ∷ bs)) (b ∷ bs) (omega arith)

    taken :
        dev.alloc (packet_read (some (framed b bs)) ∷ u) (length (b ∷ bs)) ≡ true
        → tunif_input dev u ≡ give_packet dev (b ∷ bs) (packet_read (some (framed b bs)) ∷ u)
    unfolding tunif_input low_level_input
    taken a = ground (arith, read_frame, whole)

-- On macOS, a packet of one to 1500 bytes that `tunif_output` writes goes to the device as four
-- bytes and the packet, whatever garbage the buffer held, and a `tunif_input` that reads just that,
-- and has memory for it, gives the stack the packet.
pub tunif_input-tunif_output :
    (sender receiver : Device) (garbage b : ℕ) (bs : Bytes) (t u : PacketTrace)
    → length (b ∷ bs) ≤ 1500
    → receiver.read u ≡ some (framed b bs)
    → receiver.alloc (packet_read (some (framed b bs)) ∷ u) (length (b ∷ bs)) ≡ true
    → (tunif_output sender garbage (b ∷ bs) t
        ≡ some (err_ok, packet_written (framed b bs) (sender.write t (framed b bs)) ∷ t))
      × (tunif_input receiver u
          ≡ give_packet receiver (b ∷ bs) (packet_read (some (framed b bs)) ∷ u))
tunif_input-tunif_output sender receiver garbage b bs t u short e a = (
  written sender b bs short garbage t,
  taken receiver b bs short u (read_whole receiver b bs u short e) a,
)
