-- ===== src/Tcp/Stalling.antt =====
-- What the stack's acknowledgements make src/tcp_raw.cpp send: nothing.
use mathlib.Core.Path.{subst}
use ip2socks.Common.{◌≡◌, refl, sym, Option, none, some, List, [], ◌∷◌, Bytes, All, arith}
use ip2socks.System.{Env, Trace, Pcb}
use ip2socks.Tcp.State.{TcpRawState, Ev, EvLaws, Watchers, Hooks, World}
use ip2socks.Tcp.Closing.{world}
use ip2socks.Tcp.Events.{Input, sent_called, poll_called, deliver, run}
use ip2socks.Tcp.Invariant.{IsOpen, IsOpen-retries, IsValid, Valid}
use ip2socks.Tcp.UpstreamKeeps.{sent_run, poll_run, idle_of}
use ip2socks.Tcp.Safety.{all_hooks}

-- The callbacks that the stack makes when data was acknowledged, and from time to time.
abbrev pub IsAck : Input → Type 0
IsAck sent_called = Unit {0}
IsAck poll_called = Unit {0}
IsAck _ = ⊥

-- What waits for the stack.
abbrev pub socks_buf_of : Option TcpRawState → Bytes
socks_buf_of none = []
socks_buf_of (some c) = c.socks_buf

module _ (env : Env) {ev : Ev} (laws : EvLaws ev) (hd hu : Bytes) (pcb : Pcb) where
  abbrev hooked : TcpRawState → Watchers → Trace → World
  hooked c l t = world c l (all_hooks env laws hd hu pcb) t

  sent_step :
      (c : TcpRawState) (l : Watchers) (t : Trace)
      → IsOpen pcb c l (all_hooks env laws hd hu pcb)
      → c.buf ≡ []
      → deliver env ev pcb sent_called (hooked c l t)
        ≡ some (tt, hooked (record c { retries = 0 }) l t)
  unfolding deliver
  sent_step c l t o empty = ground (
    arith,
    sent_run env laws hd hu pcb c l (all_hooks env laws hd hu pcb) t
        (idle_of env laws hd hu pcb o empty) o.relaying,
  )

  poll_step :
      (c : TcpRawState) (l : Watchers) (t : Trace)
      → IsOpen pcb c l (all_hooks env laws hd hu pcb)
      → c.buf ≡ []
      → deliver env ev pcb poll_called (hooked c l t) ≡ some (tt, hooked c l t)
  unfolding deliver
  poll_step c l t o empty = ground (
    arith,
    poll_run env laws hd hu pcb c l (all_hooks env laws hd hu pcb) t
        (idle_of env laws hd hu pcb o empty) o.relaying,
  )

  abbrev Stalled : List Input → TcpRawState → World → Type 0
  Stalled is c w =
      (w' : World) × (run env ev pcb is w ≡ some (tt, w'))
      × (w'.trace ≡ w.trace)
      × (socks_buf_of w'.es ≡ c.socks_buf)

  stalled :
      (is : List Input) (c : TcpRawState) (l : Watchers) (t : Trace)
      → All IsAck is
      → IsOpen pcb c l (all_hooks env laws hd hu pcb)
      → c.buf ≡ []
      → Stalled is c (hooked c l t)
  unfolding run
  stalled [] c l t acks o empty = (hooked c l t, refl, refl, refl)
  stalled (sent_called ∷ is) c l t acks o empty =
      rw (sent_step c l t o empty, run)
        (stalled is (record c { retries = 0 }) l t acks.1 (IsOpen-retries o 0) empty)
  stalled (poll_called ∷ is) c l t acks o empty =
      rw (poll_step c l t o empty, run) (stalled is c l t acks.1 o empty)
  stalled (_ ∷ is) c l t acks o empty = absurd acks.0

  es-Stalled :
      (es : Option TcpRawState) (is : List Input) (c : TcpRawState) (l : Watchers) (h : Hooks)
      (t : Trace)
      → All IsAck is
      → Valid hd hu pcb es l h t
      → es ≡ some c
      → Stalled is c (record { es = es; loop = l; hooks = h; trace = t })
  es-Stalled none is c l h t acks v e = absurd (cc e)
  es-Stalled (some c') is c l h t acks (o, empty, f) e =
      let o' : IsOpen pcb c' l (all_hooks env laws hd hu pcb) =
        subst (IsOpen pcb c' l) o.hooked o in
      let same : c' ≡ c = cc in
      subst (λ k. Stalled is c (world c' l k t)) (sym o.hooked)
        (subst (λ k. Stalled is k (world c' l (all_hooks env laws hd hu pcb) t)) same
          (stalled is c' l t acks o' empty))

  -- However often the stack says that data was acknowledged, or polls, a live connection that holds
  -- the invariant makes no call: the bytes in `socks_buf` are neither written nor dropped.
  pub acks_send_nothing :
      (is : List Input) (c : TcpRawState) (w : World)
      → All IsAck is
      → IsValid hd hu pcb w
      → w.es ≡ some c
      → (w' : World) × (run env ev pcb is w ≡ some (tt, w'))
        × (w'.trace ≡ w.trace)
        × (socks_buf_of w'.es ≡ c.socks_buf)
  acks_send_nothing is c w acks v e = es-Stalled w.es is c w.loop w.hooks w.trace acks v e
