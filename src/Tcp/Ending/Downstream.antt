-- ===== src/Tcp/Ending/Downstream.antt =====
-- Which callbacks of the loop end a live connection of src/tcp_raw.cpp.
use ip2socks.Common.{
  ℕ, ◌+◌, ◌%◌, ◌^◌, ◌≤◌, ◌<◌, ◌≡◌, inl, inr, refl, ◌∙◌, Option, none, some, [], ◌∷◌, ◌++◌, Bytes,
  length, length-append, append-nil, ltb, arith, Bool-cases,
}
use ip2socks.System.{Env, Trace, Pcb, received, at_most}
use ip2socks.Tcp.State.{TcpRawState, Ev, EvLaws, Watchers, Hooks}
use ip2socks.Tcp.Closing.{world}
use ip2socks.Tcp.Downstream.{relay_read, read_cb, timeout_cb, block_cb}
use ip2socks.Tcp.DownstreamKeeps.{
  timeout_run, block_run, eof_run, read_full, read_room, at_most-le, again,
}
use ip2socks.Tcp.Relaying.{write_and_output-Relayed}
use ip2socks.Tcp.Events.{socks_readable}
use ip2socks.Tcp.Flows.{Flows, Flows-received}
use ip2socks.Tcp.Invariant.{IsOpen, IsOpen-socks, IsOpen-timers, Ends}
use ip2socks.Tcp.Ending.{Over, Closes, FreedIff, Freed, died, lives, with_reason, free_all-Freed}

module _ (env : Env) {ev : Ev} (laws : EvLaws ev) (hd hu : Bytes) (pcb : Pcb) where
  relay_read-FreedIff :
      (r : Option Bytes) (c : TcpRawState) (l : Watchers) (h : Hooks) (t : Trace) (fd : ℕ)
      → ((bs : Bytes) → r ≡ some bs → length bs ≤ 1514)
      → length c.socks_buf ≤ 1514
      → IsOpen pcb c l h
      → c.buf ≡ []
      → Flows hd hu c.socks_buf [] t
      → Ends (FreedIff (Over r)) (relay_read env ev (some pcb) r (world c l h (received fd r ∷ t)))
  unfolding relay_read
  relay_read-FreedIff none c l h t fd short small o empty f =
      died _ tt (free_all-Freed env laws hd hu pcb c l h _ o.mine)
  relay_read-FreedIff (some []) c l h t fd short small o empty f =
      let got : Flows hd hu c.socks_buf [] (received fd (some []) ∷ t) =
        rw append-nil at (Flows-received f fd []) in
      let r =
        write_and_output-Relayed env hd hu pcb l h c (received fd (some []) ∷ t) o empty got in
      rw (eof_run env laws hd hu pcb c r.after l h _ r.log r.ended)
        (died _ tt (free_all-Freed env laws hd hu pcb r.after l h r.log r.still.mine))
  relay_read-FreedIff (some (b ∷ bs)) c l h t fd short small o empty f =
      let size = length-append c.socks_buf (b ∷ bs) in
      let few = short (b ∷ bs) refl in
      let o' =
        IsOpen-socks o (c.socks_buf ++ (b ∷ bs)) ((c.socks_buf_used + length (b ∷ bs)) % 2 ^ 16)
          c.lwip_blocked (omega (arith, o.socks_exact)) (omega arith) in
      let r =
        write_and_output-Relayed env hd hu pcb l h _ (received fd (some (b ∷ bs)) ∷ t) o' empty
          (Flows-received f fd (b ∷ bs)) in
      rw r.ended (lives (λ p. p))

  pub read-FreedIff :
      (c : TcpRawState) (l : Watchers) (h : Hooks) (t : Trace)
      → IsOpen pcb c l h
      → c.buf ≡ []
      → Flows hd hu c.socks_buf [] t
      → Ends (FreedIff (Closes env c l t socks_readable)) (read_cb env ev (world c l h t))
  read-FreedIff c l h t o empty f =
      let once : (ev.timer_again l.timeout).repeat ≡ 0 = laws.again_repeat l.timeout ∙ o.once in
      elim (Bool-cases (ltb 1514 c.socks_buf_used)) [
        | inl e ↦
            let full : 1514 < c.socks_buf_used = ground arith in
            rw (read_full env laws hd hu pcb c l h t full) (lives (λ p. omega (arith, full, p.0)))
        | inr e ↦
            let room : c.socks_buf_used ≤ 1514 = ground arith in
            rw (read_room env laws hd hu pcb c l h t room o.mine) (
              with_reason _ _ room (
                relay_read-FreedIff (at_most 1514 (env.recv t l.io_fd)) c
                  (again env laws hd hu pcb l) h t l.io_fd
                  (λ bs q. at_most-le env laws hd hu pcb 1514 _ bs q) (omega (arith, o.socks_exact))
                  (IsOpen-timers o _ l.block once) empty f))
      ]

  pub timeout-FreedIff :
      (c : TcpRawState) (l : Watchers) (h : Hooks) (t : Trace)
      → IsOpen pcb c l h
      → c.buf ≡ []
      → Flows hd hu c.socks_buf [] t
      → Ends Freed (timeout_cb env ev (world c l h t))
  timeout-FreedIff c l h t o empty f =
      let r = write_and_output-Relayed env hd hu pcb l h c t o empty f in
      rw (timeout_run env laws hd hu pcb c r.after l h t r.log o.mine r.still.mine r.ended)
        (free_all-Freed env laws hd hu pcb r.after l h r.log r.still.mine)

  pub block-FreedIff :
      (c : TcpRawState) (l : Watchers) (h : Hooks) (t : Trace)
      → IsOpen pcb c l h
      → c.buf ≡ []
      → Flows hd hu c.socks_buf [] t
      → Ends (FreedIff ⊥) (block_cb env ev (world c l h t))
  block-FreedIff c l h t o empty f =
      let r = write_and_output-Relayed env hd hu pcb l h c t o empty f in
      rw (block_run env laws hd hu pcb c r.after l h t r.log o.mine r.ended) (lives (λ p. p))
