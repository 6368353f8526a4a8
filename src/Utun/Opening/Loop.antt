-- ===== src/Utun/Opening/Loop.antt =====
-- The loop over the units in `tun_create` of src/netif/tunif.c on macOS.
use ip2socks.Common.{
  [], ℕ, zero, suc, ◌+◌, ◌≤◌, ◌≡◌, refl, sym, ap, ◌∙◌, ◌++◌, append_assoc, Option, none, some,
  Bytes, arith,
}
use ip2socks.System.{Cmd, pure}
use ip2socks.Setup.{Calls, Kernel}
use ip2socks.Utun.{Control, try_units, tun_create}
use ip2socks.Utun.Opening.{
  UnitNames, Made, no_unit, unit_made, opens, settles, held, Accounted, Tried, utun_create-Tried,
}

module _ (k : Kernel) (mac : Control) (names : UnitNames mac) (dev : Bytes) where
  -- More units may be allowed, and more attempts.
  Made-more :
      {bound more : ℕ} {r : Option (ℕ × Bytes)} {u : Calls}
      → bound ≤ more
      → Made bound dev r u
      → Made more dev r u
  Made-more h (no_unit u) = no_unit u
  Made-more h (unit_made fd id unit name u small short plain) =
      unit_made fd id unit name u (omega arith) short plain

  first_made :
      (n unit : ℕ) (t u : Calls) (d : ℕ × Bytes)
      → Accounted 1 t (some d) u
      → Accounted (suc n) t (some d) u
  first_made n unit t u d a = record {
    gone = a.gone;
    opened_all = a.opened_all;
    settled_all = a.settled_all;
    bounded = omega (arith, a.bounded);
  }

  next-Tried :
      (n bound : ℕ) (t u : Calls) (r : Option (Option (ℕ × Bytes) × Calls))
      → Accounted 1 t none u
      → Tried n bound dev u r
      → Tried (suc n) bound dev t r
  next-Tried n bound t u none a h = h
  next-Tried n bound t u (some (r, v)) a (b, m) = (
    record {
      gone = b.gone ++ a.gone;
      opened_all =
          b.opened_all
          ∙ ap (λ l. held r ++ (b.gone ++ l)) a.opened_all
          ∙ ap (λ l. held r ++ l) (sym (append_assoc b.gone a.gone (opens t)));
      settled_all =
          b.settled_all
          ∙ ap (λ l. b.gone ++ l) a.settled_all
          ∙ sym (append_assoc b.gone a.gone (settles t));
      bounded = omega (arith, a.bounded, b.bounded);
    },
    m,
  )

  abbrev else_next : ℕ → ℕ → Option (ℕ × Bytes) → Cmd Calls (Option (ℕ × Bytes))
  else_next n unit made = elim made [
    | none ↦ try_units k mac n (suc unit) dev
    | some d ↦ pure (some d)
  ]

  try_next :
      (n unit bound : ℕ) (t : Calls) (r : Option (Option (ℕ × Bytes) × Calls))
      → suc unit ≤ bound
      → Tried 1 (suc unit) dev t r
      → ((u : Calls) → Tried n bound dev u (try_units k mac n (suc unit) dev u))
      → Tried
          (suc n)
          bound
          dev
          t
          (elim r [ none ↦ none | some (made, u) ↦ else_next n unit made u ])
  try_next n unit bound t none below h next = h
  try_next n unit bound t (some (none, u)) below h next =
      next-Tried n bound t u (try_units k mac n (suc unit) dev u) h.0 (next u)
  try_next n unit bound t (some (some d, u)) below h next =
      (first_made n unit t u d h.0, Made-more below h.1)

  try_units-Tried :
      (n unit bound : ℕ) (t : Calls)
      → n + unit ≤ bound
      → Tried n bound dev t (try_units k mac n unit dev t)
  unfolding try_units
  try_units-Tried zero unit bound t h = (
    record { gone = []; opened_all = refl; settled_all = refl; bounded = omega arith },
    no_unit t,
  )
  try_units-Tried (suc n) unit bound t h =
      try_next n unit bound t _ (omega arith) (utun_create-Tried k mac names dev unit t)
        λ u. try_units-Tried n (suc unit) bound u (omega arith)

  Tried-result :
      (n bound : ℕ) (t : Calls) (r : Option (Option (ℕ × Bytes) × Calls))
      → Tried n bound dev t r
      → (d : Option (ℕ × Bytes)) × (t' : Calls) × (r ≡ some (d, t'))
        × Accounted n t d t'
        × Made bound dev d t'
  Tried-result n bound t none h = absurd h
  Tried-result n bound t (some (d, t')) h = (d, t', refl, h.0, h.1)

  -- On macOS, with interface names that are texts shorter than 16 bytes, `tun_create` always
  -- returns, after at most 256 control sockets. The descriptors that were opened are those that
  -- were closed or would not tell their name, and so stay open, each once and in this order, and
  -- then the result's, if there is one; no other descriptor is closed. A result has the name that
  -- its last call gave, of a unit below 256 that it was connected to just before, copied over the
  -- start of the array.
  pub tun_create-Accounted :
      (t : Calls)
      → (d : Option (ℕ × Bytes)) × (t' : Calls) × (tun_create k mac dev t ≡ some (d, t'))
        × Accounted 256 t d t'
        × Made 256 dev d t'
  unfolding tun_create
  tun_create-Accounted t = Tried-result 256 256 t _ (try_units-Tried 256 0 256 t (omega arith))
