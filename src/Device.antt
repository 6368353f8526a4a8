-- ===== src/Device.antt =====
-- What src/netif/tunif.c and src/netif/tapif.c have in common: packets between a device and the
-- stack.
pub mod Counts
use ip2socks.Common.{ℕ, Bool, true, false, Option, some, List, ◌∷◌, Bytes, if◌then◌else◌}
use ip2socks.System.{LwipErr, err_ok, err_mem, err_code, Cmd}
use ip2socks.Tcp.Upstream.{is_ok}

-- The platforms that the program is built for.
pub data Platform : Type 0 where
  linux macos : Platform

-- What becomes of the process: it goes on, or it has called `exit`.
pub data Fate {ℓ} (A : Type ℓ) : Type ℓ where
  going : A → Fate A
  exited : ℕ → Fate A

-- The calls on the device and the stack, with their answers.
pub data PacketEvent : Type 0 where
  packet_read : Option Bytes → PacketEvent
  packet_written : Bytes → Bool → PacketEvent
  packet_input : Bytes → LwipErr → PacketEvent
  packet_freed : PacketEvent

abbrev pub PacketTrace : Type 0
PacketTrace = List PacketEvent

-- The device, `pbuf_alloc` and `netif->input`, which see the calls so far.
pub record Device : Type 0 where
  pub read : PacketTrace → Option Bytes
  pub write : PacketTrace → Bytes → Bool
  pub alloc : PacketTrace → ℕ → Bool
  pub input : PacketTrace → Bytes → LwipErr

-- The packet is given to the stack, and freed here if the stack refuses it.
unfoldable pub give_packet : Device → Bytes → Cmd PacketTrace (Unit {0})
give_packet dev bs t =
    let err = dev.input t bs in
    some (tt, if is_ok err then packet_input bs err ∷ t else packet_freed ∷ packet_input bs err ∷ t)
