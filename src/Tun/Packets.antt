-- ===== src/Tun/Packets.antt =====
-- No packet is lost twice or kept: what src/netif/tunif.c frees is what the stack refused.
use ip2socks.Common.{
  ℕ, ◌≤◌, ◌<◌, ◌≡◌, ap, take, ltb, ◌++◌, ◌↔◌, ◌⊎◌, inl, inr, refl, ◌∙◌, true, false, Option, none,
  some, [], ◌∷◌, Bytes, length, arith, Bool-cases,
}
use ip2socks.System.{at_most, memory, err_ok}
use ip2socks.Device.{packet_read, packet_written, PacketTrace, Device, give_packet}
use ip2socks.Device.Counts.{given, Balanced, give_packet-Balanced}
use ip2socks.Tun.{
  low_level_input, tunif_input, copy_over, write_buffer, low_level_output, tunif_output,
}

-- A copy that fits keeps the end of the buffer, and one that does not writes behind it.
copy_over-some :
    (bs buf : Bytes)
    → length bs ≤ length buf
    → (rest : Bytes) × (copy_over bs buf ≡ some (bs ++ rest))
unfolding copy_over
copy_over-some [] buf h = (buf, refl)
copy_over-some (b ∷ bs) [] h = absurd (omega arith)
copy_over-some (b ∷ bs) (x ∷ buf) h =
    let (rest, e) = copy_over-some bs buf (omega arith) in (rest, rw e refl)

copy_over-none : (bs buf : Bytes) → length buf < length bs → copy_over bs buf ≡ none
unfolding copy_over
copy_over-none [] buf h = absurd (omega arith)
copy_over-none (b ∷ bs) [] h = refl
copy_over-none (b ∷ bs) (x ∷ buf) h = rw (copy_over-none bs buf (omega arith)) refl

take-front : (bs rest : Bytes) → take (length bs) (bs ++ rest) ≡ bs
take-front [] rest = refl
take-front (b ∷ bs) rest = ap (λ x. b ∷ x) (take-front bs rest)

module _ (dev : Device) (t : PacketTrace) where
  -- What the device gives next, as it fits the buffer.
  abbrev pub next : Option Bytes
  next = at_most 1500 (dev.read t)

  -- As many packets were freed as refused since, and the stack was given at most the next packet,
  -- whole.
  abbrev pub Kept : PacketTrace → Type 0
  Kept t' =
      Balanced t t'
      × ((given t' ≡ given t)
          ⊎ ((b : ℕ) × (bs : Bytes) × (next ≡ some (b ∷ bs)) × (given t' ≡ (b ∷ bs) ∷ given t)))

  nothing : next ≡ none → tunif_input dev t ≡ some (tt, packet_read none ∷ t)
  unfolding tunif_input low_level_input
  nothing e = ground arith

  end : next ≡ some [] → tunif_input dev t ≡ some (tt, packet_read (some []) ∷ t)
  unfolding tunif_input low_level_input
  end e = ground arith

  no_memory :
      (b : ℕ) (bs : Bytes)
      → next ≡ some (b ∷ bs)
      → dev.alloc (packet_read (some (b ∷ bs)) ∷ t) (length (b ∷ bs)) ≡ false
      → tunif_input dev t ≡ some (tt, packet_read (some (b ∷ bs)) ∷ t)
  unfolding tunif_input low_level_input
  no_memory b bs e a = ground arith

  passed :
      (b : ℕ) (bs : Bytes)
      → next ≡ some (b ∷ bs)
      → dev.alloc (packet_read (some (b ∷ bs)) ∷ t) (length (b ∷ bs)) ≡ true
      → tunif_input dev t ≡ give_packet dev (b ∷ bs) (packet_read (some (b ∷ bs)) ∷ t)
  unfolding tunif_input low_level_input
  passed b bs e a = ground arith

  next-Kept :
      (r : Option Bytes)
      → next ≡ r
      → (t' : PacketTrace) × (tunif_input dev t ≡ some (tt, t')) × Kept t'
  next-Kept none e = (packet_read none ∷ t, nothing e, (omega arith, inl refl))
  next-Kept (some []) e = (packet_read (some []) ∷ t, end e, (omega arith, inl refl))
  next-Kept (some (b ∷ bs)) e =
      let u = packet_read (some (b ∷ bs)) ∷ t in
      elim (Bool-cases (dev.alloc u (length (b ∷ bs)))) [
        | inl a ↦
            let (t', ran, balanced, last) = give_packet-Balanced dev (b ∷ bs) u in
            (t', passed b bs e a ∙ ran, (balanced, inr (b, bs, e, last)))
        | inr a ↦ (u, no_memory b bs e a, (omega arith, inl refl))
      ]

  -- `tunif_input` always returns. It frees as many packets as the stack refuses meanwhile, and
  -- gives the stack nothing, or just the packet that it has read, whole.
  pub tunif_input-Kept : (t' : PacketTrace) × (tunif_input dev t ≡ some (tt, t')) × Kept t'
  tunif_input-Kept = next-Kept next refl

  module _ (garbage : ℕ → ℕ) (bs : Bytes) where
    too_long : 1500 < length bs → tunif_output dev garbage bs t ≡ none
    unfolding tunif_output low_level_output write_buffer
    too_long long =
        let e = copy_over-none bs (memory garbage 1500 0) long in
        ap (λ r. write_buffer dev bs r t) e

    whole :
        length bs ≤ 1500
        → tunif_output dev garbage bs t ≡ some (err_ok, packet_written bs (dev.write t bs) ∷ t)
    unfolding tunif_output low_level_output write_buffer
    whole fits =
        let (rest, e) = copy_over-some bs (memory garbage 1500 0) fits in
        ap (λ r. write_buffer dev bs r t) e
        ∙ ap (λ p. some (err_ok, packet_written p (dev.write t p) ∷ t)) (take-front bs rest)

    -- `tunif_output` writes just its packet to the device, whole and whatever its buffer held, and
    -- returns `ERR_OK`, whatever becomes of the writing, exactly if the packet has at most 1500
    -- bytes.
    pub tunif_output-whole_iff :
        (tunif_output dev garbage bs t ≡ some (err_ok, packet_written bs (dev.write t bs) ∷ t))
        ↔ (length bs ≤ 1500)
    tunif_output-whole_iff = (
      (λ ran. elim (Bool-cases (ltb 1500 (length bs))) [
        | inl long ↦ let e = too_long (ground arith) in absurd (cc (ran, e))
        | inr short ↦ ground arith
      ]),
      whole,
    )
