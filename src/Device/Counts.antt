-- ===== src/Device/Counts.antt =====
-- The packets that were given to the stack, refused by it and freed, counted on a trace.
use ip2socks.Common.{ℕ, suc, ◌+◌, ◌≡◌, refl, some, List, [], ◌∷◌, Bytes, arith, if◌then◌else◌}
use ip2socks.System.{LwipErr, err_ok, err_mem, err_code}
use ip2socks.Tcp.Upstream.{is_ok}
use ip2socks.Device.{packet_input, packet_freed, PacketTrace, Device, give_packet}

-- How many packets were freed, and how many the stack refused.
abbrev pub freed : PacketTrace → ℕ
freed [] = 0
freed (packet_freed ∷ t) = suc (freed t)
freed (e ∷ t) = freed t

abbrev pub refused : PacketTrace → ℕ
refused [] = 0
refused (packet_input bs err_mem ∷ t) = suc (refused t)
refused (packet_input bs (err_code n) ∷ t) = suc (refused t)
refused (e ∷ t) = refused t

-- The packets that the stack was given, the last one first.
abbrev pub given : PacketTrace → List Bytes
given [] = []
given (packet_input bs err ∷ t) = bs ∷ given t
given (e ∷ t) = given t

-- From one trace to the other as many packets were freed as refused.
abbrev pub Balanced : PacketTrace → PacketTrace → Type 0
Balanced t u = freed u + refused t ≡ refused u + freed t

given_after :
    (bs : Bytes) (err : LwipErr) (t : PacketTrace)
    → let u =
        if is_ok err then packet_input bs err ∷ t else packet_freed ∷ packet_input bs err ∷ t in
      Balanced t u × (given u ≡ bs ∷ given t)
given_after bs err_ok t = (omega arith, refl)
given_after bs err_mem t = (omega arith, refl)
given_after bs (err_code n) t = (omega arith, refl)

-- A packet that is given to the stack is given whole, and freed exactly if it is refused.
pub give_packet-Balanced :
    (dev : Device) (bs : Bytes) (t : PacketTrace)
    → (u : PacketTrace) × (give_packet dev bs t ≡ some (tt, u))
      × Balanced t u
      × (given u ≡ bs ∷ given t)
unfolding give_packet
give_packet-Balanced dev bs t =
    let (balanced, same) = given_after bs (dev.input t bs) t in (_, refl, balanced, same)
