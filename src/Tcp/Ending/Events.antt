-- ===== src/Tcp/Ending/Events.antt =====
-- Exactly which callbacks end a live connection of src/tcp_raw.cpp.
use mathlib.Core.Path.{subst}
use ip2socks.Common.{
  ◌≡◌, ◌↔◌, refl, sym, ◌∙◌, Bool, true, false, if◌then◌else◌, Option, none, some, [], Bytes,
}
use ip2socks.System.{Env, Trace, Pcb, ◌>>◌, pure}
use ip2socks.Tcp.State.{TcpRawState, Ev, EvLaws, Watchers, Hooks, World, W, conn}
use ip2socks.Tcp.Close.{timeout_stop}
use ip2socks.Tcp.Closing.{world}
use ip2socks.Tcp.Upstream.{tcp_raw_recv, tcp_raw_sent, tcp_raw_poll}
use ip2socks.Tcp.Downstream.{read_cb, timeout_cb, block_cb}
use ip2socks.Tcp.UpstreamKeeps.{idle_of, sent_run, poll_run, error_run}
use ip2socks.Tcp.Relay.{ended_world}
use ip2socks.Tcp.Timeout.{either}
use ip2socks.Tcp.Events.{
  Input, recv_called, sent_called, poll_called, error_called, socks_readable, timeout_expired,
  block_expired, stop_block, deliver,
}
use ip2socks.Tcp.Flows.{Flows}
use ip2socks.Tcp.Invariant.{IsOpen, IsOpen-timers, Valid, IsValid, Ends, Ends-pure}
use ip2socks.Tcp.Safety.{Fits, all_hooks, guarded}
use ip2socks.Tcp.Ending.{Closes, FreedIff, Freed, died, lives, close-Freed}
use ip2socks.Tcp.Ending.Upstream.{recv-FreedIff}
use ip2socks.Tcp.Ending.Downstream.{read-FreedIff, timeout-FreedIff, block-FreedIff}

module _ (env : Env) {ev : Ev} (laws : EvLaws ev) (hd hu : Bytes) (pcb : Pcb) where
  -- A watcher that fires only while it is active.
  fires :
      (b : Bool) (m : W (Unit {0})) (w : World) {c : TcpRawState}
      → w.es ≡ some c
      → (b ≡ true → Ends Freed (m w))
      → Ends (FreedIff (b ≡ true)) ((if b then m else pure tt) w)
  fires true m w e held = died _ refl (held refl)
  fires false m w e held = (λ q. absurd (cc (e, q)), λ p. absurd (cc p))

  ends_open :
      (i : Input) (c : TcpRawState) (l : Watchers) (t : Trace)
      → Fits i
      → IsOpen pcb c l (all_hooks env laws hd hu pcb)
      → c.buf ≡ []
      → Flows hd hu c.socks_buf [] t
      → Ends
          (FreedIff (Closes env c l t i))
          (deliver env ev pcb i (world c l (all_hooks env laws hd hu pcb) t))
  unfolding deliver
  ends_open (recv_called p e) c l t fits o empty f =
      Ends-pure (FreedIff (Closes env c l t (recv_called p e))) (tcp_raw_recv env ev conn pcb p e)
        tt _ (recv-FreedIff env laws hd hu pcb c l _ t p e fits o empty)
  ends_open sent_called c l t fits o empty f =
      Ends-pure (FreedIff ⊥) (tcp_raw_sent env ev conn pcb) tt _ (
        rw
          (sent_run env laws hd hu pcb c l (all_hooks env laws hd hu pcb) t
            (idle_of env laws hd hu pcb o empty) o.relaying)
          (lives (λ p. p)))
  ends_open poll_called c l t fits o empty f =
      Ends-pure (FreedIff ⊥) (tcp_raw_poll env ev conn pcb) tt _ (
        rw
          (poll_run env laws hd hu pcb c l (all_hooks env laws hd hu pcb) t
            (idle_of env laws hd hu pcb o empty) o.relaying)
          (lives (λ p. p)))
  ends_open (error_called e) c l t fits o empty f =
      rw (error_run env laws hd hu pcb c l (all_hooks env laws hd hu pcb) t e o.mine)
        (died _ tt (close-Freed env laws hd hu pcb c l _ t o.mine))
  ends_open socks_readable c l t fits o empty f =
      either
        (λ b.
          Ends (FreedIff (Closes env c l t socks_readable))
            ((if b then read_cb env ev else pure tt) (world c l (all_hooks env laws hd hu pcb) t)))
        l.io (read-FreedIff env laws hd hu pcb c l _ t o empty f) (λ e. absurd (cc (e, o.io_on)))
  ends_open timeout_expired c l t fits o empty f =
      let stopped = ev.timer_stop l.timeout in
      fires l.timeout.active (timeout_stop ev >> timeout_cb env ev)
        (world c l (all_hooks env laws hd hu pcb) t) refl
        (λ e.
          timeout-FreedIff env laws hd hu pcb c (record l { timeout = stopped }) _ t
            (IsOpen-timers o stopped l.block (laws.stop_repeat l.timeout ∙ o.once)) empty f)
  ends_open block_expired c l t fits o empty f =
      let stopped = ev.timer_stop l.block in
      guarded (FreedIff ⊥) l.block.active (stop_block env ev pcb >> block_cb env ev)
        (world c l (all_hooks env laws hd hu pcb) t) (lives (λ p. p))
        (block-FreedIff env laws hd hu pcb c (record l { block = stopped }) _ t
          (IsOpen-timers o l.timeout stopped o.once) empty f)

  ends_es :
      (es : Option TcpRawState) (i : Input) (c : TcpRawState) (l : Watchers) (h : Hooks) (t : Trace)
      → Fits i
      → Valid hd hu pcb es l h t
      → es ≡ some c
      → Ends
          (FreedIff (Closes env c l t i))
          (deliver env ev pcb i (record { es = es; loop = l; hooks = h; trace = t }))
  ends_es none i c l h t fits v e = absurd (cc e)
  ends_es (some c') i c l h t fits (o, empty, f) e =
      let o' : IsOpen pcb c' l (all_hooks env laws hd hu pcb) =
        subst (IsOpen pcb c' l) o.hooked o in
      let same : c' ≡ c = cc in
      subst (λ k. Ends (FreedIff (Closes env k l t i)) (deliver env ev pcb i (world c' l h t))) same
        (subst (λ k. Ends (FreedIff (Closes env c' l t i)) (deliver env ev pcb i (world c' l k t)))
          (sym o.hooked) (ends_open i c' l t fits o' empty f))

  -- Every callback on a live connection that holds the invariant, with a payload shorter than 2 ^
  -- 16 bytes, ends without a fault, and frees the connection exactly in these cases: the stack has
  -- closed it or reports an error; a payload of at least one byte was handed over, and the SOCKS5
  -- socket took none of it; the SOCKS5 socket is readable with at most 1514 bytes waiting for the
  -- stack, and it has failed or is at its end; the 60 seconds timer expires while it runs.
  pub deliver_frees_iff :
      (i : Input) (c : TcpRawState) (w : World)
      → Fits i
      → IsValid hd hu pcb w
      → w.es ≡ some c
      → (w' : World) × (deliver env ev pcb i w ≡ some (tt, w'))
        × ((w'.es ≡ none) ↔ Closes env c w.loop w.trace i)
  deliver_frees_iff i c w fits v e =
      ended_world (FreedIff (Closes env c w.loop w.trace i)) _
        (ends_es w.es i c w.loop w.hooks w.trace fits v e)
