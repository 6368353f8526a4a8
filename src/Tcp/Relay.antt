-- ===== src/Tcp/Relay.antt =====
-- What src/tcp_raw.cpp promises of a relayed connection, from its start by `tcp_raw_accept` over
-- every sequence of callbacks.
use mathlib.Core.Path.{subst}
use ip2socks.Common.{
  ℕ, ap, ◌∙◌, ◌≤◌, ◌<◌, ◌≡◌, refl, Option, none, some, List, [], ◌++◌, Bytes, length, All,
}
use ip2socks.System.{Env, Pcb, Trace}
use ip2socks.Tcp.State.{TcpRawState, Ev, EvLaws, Watchers, Hooks, World}
use ip2socks.Tcp.Events.{Input, run}
use ip2socks.Tcp.Flows.{down_in, down_out, up_in, up_out}
use ip2socks.Tcp.Invariant.{IsGone, Valid, IsValid, Ends}
use ip2socks.Tcp.Safety.{Fits, run-IsValid, run_gone, started, started-IsValid}

-- What may wait for the stack: the buffer of a live connection, which holds at most two reads.
abbrev pub Waits : Option TcpRawState → Bytes → Type 0
Waits (some c) rest = (rest ≡ c.socks_buf) × (length rest ≤ 3028)
Waits none rest = Unit {0}

-- Nothing waits for the SOCKS5 socket while the connection is live.
abbrev pub Drained : Option TcpRawState → Bytes → Type 0
Drained (some c) rest = (rest ≡ []) × (c.buf ≡ []) × (c.buf_used ≡ 0)
Drained none rest = Unit {0}

pub ended_world :
    (P : World → Type 0) (r : Option (Unit {0} × World))
    → Ends P r
    → (w : World) × (r ≡ some (tt, w)) × P w
ended_world P none h = absurd h
ended_world P (some (tt', w)) h = (w, refl, h)

module _ (hd hu : Bytes) (pcb : Pcb) where
  waiting_down :
      (es : Option TcpRawState) (l : Watchers) (h : Hooks) (t : Trace)
      → Valid hd hu pcb es l h t
      → (rest : Bytes) × (down_in t ≡ hd ++ (down_out t ++ rest)) × Waits es rest
  waiting_down (some c) l h t (o, empty, f) = (c.socks_buf, f.down_exact, (refl, o.socks_bound))
  waiting_down none l h t (g, (down, up, f)) = (down, f.down_exact, tt)

  waiting_up :
      (es : Option TcpRawState) (l : Watchers) (h : Hooks) (t : Trace)
      → Valid hd hu pcb es l h t
      → (rest : Bytes) × (hu ++ up_in t ≡ up_out t ++ rest) × Drained es rest
  waiting_up (some c) l h t (o, empty, f) =
      ([], f.up_exact, (refl, empty, o.buf_exact ∙ ap length empty))
  waiting_up none l h t (g, (down, up, f)) = (up, f.up_exact, tt)

  unhooked_of :
      (es : Option TcpRawState) (l : Watchers) (h : Hooks) (t : Trace)
      → Valid hd hu pcb es l h t
      → es ≡ none
      → IsGone l h
  unhooked_of none l h t (g, v) e = g
  unhooked_of (some c) l h t v e = cc

module _ (env : Env) {ev : Ev} (laws : EvLaws ev) (pcb : Pcb) (fd : ℕ) (pos : 0 < fd) where
  abbrev relay : List Input → World → Option (Unit {0} × World)
  relay is w = run env ev pcb is (started env laws pcb fd pos w)

  relay_ends :
      (is : List Input) (w : World)
      → All Fits is
      → up_in w.trace ≡ []
      → down_out w.trace ≡ []
      → (w' : World) × (relay is w ≡ some (tt, w'))
        × IsValid (down_in w.trace) (up_out w.trace) pcb w'
  relay_ends is w fits no_up no_down =
      ended_world (IsValid (down_in w.trace) (up_out w.trace) pcb) (relay is w) (
        run-IsValid env laws (down_in w.trace) (up_out w.trace) pcb is
          (started env laws pcb fd pos w) fits
          (started-IsValid env laws pcb fd pos w no_up no_down))

  -- From the state in which `tcp_raw_accept` leaves a connection, with a trace that has moved no
  -- byte of it, every sequence of callbacks whose payloads are shorter than 2 ^ 16 bytes ends
  -- without a fault. All bytes read from the SOCKS5 socket are then those read before, those that
  -- `tcp_write` accepted, and a rest, in this order; the rest of a live connection is its
  -- `socks_buf`, at most 3028 bytes.
  pub downstream_in_order :
      (is : List Input) (w : World)
      → All Fits is
      → up_in w.trace ≡ []
      → down_out w.trace ≡ []
      → (w' : World) × (run env ev pcb is (started env laws pcb fd pos w) ≡ some (tt, w'))
        × ((rest : Bytes) × (down_in w'.trace ≡ down_in w.trace ++ (down_out w'.trace ++ rest))
            × Waits w'.es rest)
  downstream_in_order is w fits no_up no_down =
      let (w', e, v) = relay_ends is w fits no_up no_down in
      (w', e, waiting_down (down_in w.trace) (up_out w.trace) pcb w'.es w'.loop w'.hooks w'.trace v)

  -- From the same state every such sequence of callbacks ends without a fault. All bytes sent
  -- before and all bytes copied from the stack's payloads are then, in order, the bytes given to a
  -- `send` that took at least one byte, and a rest; a live connection has no rest, and its `buf` is
  -- empty.
  pub upstream_in_order :
      (is : List Input) (w : World)
      → All Fits is
      → up_in w.trace ≡ []
      → down_out w.trace ≡ []
      → (w' : World) × (run env ev pcb is (started env laws pcb fd pos w) ≡ some (tt, w'))
        × ((rest : Bytes) × (up_out w.trace ++ up_in w'.trace ≡ up_out w'.trace ++ rest)
            × Drained w'.es rest)
  upstream_in_order is w fits no_up no_down =
      let (w', e, v) = relay_ends is w fits no_up no_down in
      (w', e, waiting_up (down_in w.trace) (up_out w.trace) pcb w'.es w'.loop w'.hooks w'.trace v)

  nothing_later :
      (hd hu : Bytes) (later : List Input) (w' : World)
      → IsValid hd hu pcb w'
      → w'.es ≡ none
      → IsGone w'.loop w'.hooks × (run env ev pcb later w' ≡ some (tt, w'))
  nothing_later hd hu later w' v freed =
      let gone = unhooked_of hd hu pcb w'.es w'.loop w'.hooks w'.trace v freed in
      (gone, run_gone env laws hd hu pcb later w' gone)

  -- If such a sequence of callbacks ends with the connection's memory freed, all three watchers are
  -- stopped and no callback is registered, and no later sequence of events changes anything.
  pub freed_is_final :
      (is later : List Input) (w w' : World)
      → All Fits is
      → up_in w.trace ≡ []
      → down_out w.trace ≡ []
      → run env ev pcb is (started env laws pcb fd pos w) ≡ some (tt, w')
      → w'.es ≡ none
      → IsGone w'.loop w'.hooks × (run env ev pcb later w' ≡ some (tt, w'))
  freed_is_final is later w w' fits no_up no_down e freed =
      let v =
        run-IsValid env laws (down_in w.trace) (up_out w.trace) pcb is
          (started env laws pcb fd pos w) fits
          (started-IsValid env laws pcb fd pos w no_up no_down) in
      let v' = subst (Ends (IsValid (down_in w.trace) (up_out w.trace) pcb)) e v in
      nothing_later (down_in w.trace) (up_out w.trace) later w' v' freed
