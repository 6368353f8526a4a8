-- ===== src/Tap/Frames.antt =====
-- What src/netif/tapif.c does with each frame.
use ip2socks.Common.{
  ◌≡◌, ◌⊎◌, inl, inr, refl, true, false, Option, none, some, ◌∷◌, Bytes, length, arith,
  Option-cases, Bool-cases,
}
use ip2socks.System.{at_most}
use ip2socks.Device.{Fate, going, exited, packet_read, PacketTrace, Device, give_packet}
use ip2socks.Device.Counts.{given, Balanced, give_packet-Balanced}
use ip2socks.Tap.{low_level_input, take_frame, tapif_input}

module _ (dev : Device) (t : PacketTrace) where
  -- What the device gives next, as it fits the buffer.
  abbrev pub frame : Option Bytes
  frame = at_most 1514 (dev.read t)

  -- Where the call leaves the process: it has ended exactly if the read failed. Otherwise as many
  -- frames were freed as refused, and the stack was given the frame, whole, or nothing if no memory
  -- was left.
  abbrev pub Taken : Fate (Unit {0}) → PacketTrace → Type 0
  Taken (exited n) u = (frame ≡ none) × (n ≡ 1) × (given u ≡ given t)
  Taken (going tt') u =
      (bs : Bytes) × (frame ≡ some bs)
      × Balanced t u
      × (let v = packet_read (some bs) ∷ t in
          ((dev.alloc v (length bs) ≡ true) × (given u ≡ bs ∷ given t))
          ⊎ ((dev.alloc v (length bs) ≡ false) × (given u ≡ given t)))

  failed : frame ≡ none → tapif_input dev t ≡ some (exited 1, packet_read none ∷ t)
  unfolding tapif_input low_level_input take_frame
  failed e = ground arith

  module _ (bs : Bytes) (e : frame ≡ some bs) where
    abbrev after_read : PacketTrace
    after_read = packet_read (some bs) ∷ t

    passed :
        (u : PacketTrace)
        → dev.alloc after_read (length bs) ≡ true
        → give_packet dev bs after_read ≡ some (tt, u)
        → tapif_input dev t ≡ some (going tt, u)
    unfolding tapif_input low_level_input take_frame
    passed u a g = ground arith

    no_memory :
        dev.alloc after_read (length bs) ≡ false → tapif_input dev t ≡ some (going tt, after_read)
    unfolding tapif_input low_level_input take_frame
    no_memory a = ground arith

    frame-Taken :
        (f : Fate (Unit {0})) × (u : PacketTrace) × (tapif_input dev t ≡ some (f, u)) × Taken f u
    frame-Taken = elim (Bool-cases (dev.alloc after_read (length bs))) [
      | inl a ↦
          let (u, ran, balanced, last) = give_packet-Balanced dev bs after_read in
          (going tt, u, passed u a ran, (bs, e, balanced, inl (a, last)))
      | inr a ↦ (going tt, after_read, no_memory a, (bs, e, omega arith, inr (a, refl)))
    ]

  -- `tapif_input` ends in one of two ways. If the read fails, also because nothing is there to read
  -- from the non-blocking device, the program has exited with 1. Otherwise as many frames are freed
  -- as the stack refuses, and the stack is given the frame, whole, or nothing if there is no
  -- memory.
  pub tapif_input-Taken :
      (f : Fate (Unit {0})) × (u : PacketTrace) × (tapif_input dev t ≡ some (f, u)) × Taken f u
  tapif_input-Taken = elim (Option-cases frame) [
    | inl e ↦ (exited 1, packet_read none ∷ t, failed e, (e, refl, refl))
    | inr (bs, e) ↦ frame-Taken bs e
  ]
