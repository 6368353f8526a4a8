-- ===== src/Tcp/DownstreamKeeps.antt =====
-- The callbacks of libev keep the invariant of a relayed connection (src/tcp_raw.cpp).
use ip2socks.Common.{
  ℕ, ◌+◌, ◌%◌, ◌^◌, ◌≤◌, ◌<◌, ◌≡◌, inl, inr, refl, ◌∙◌, true, false, Option, none, some, [], ◌∷◌,
  ◌++◌, ltb, arith, Bytes, length, take, length-append, append-nil, length-take-le, Bool-cases,
}
use ip2socks.System.{Env, Trace, closed, received, at_most, Pcb}
use ip2socks.Tcp.State.{TcpRawState, Ev, EvLaws, Watchers, Hooks, conn}
use ip2socks.Tcp.Close.{tcp_raw_close, free_all}
use ip2socks.Tcp.Closing.{world}
use ip2socks.Tcp.Downstream.{write_and_output, timeout_cb, block_cb, relay_read, read_cb}
use ip2socks.Tcp.Flows.{Flows, Flows-closed, Flows-received, Flows-unread}
use ip2socks.Tcp.Invariant.{IsOpen, IsOpen-socks, IsOpen-timers, IsValid, Ends, close-Valid}
use ip2socks.Tcp.Relaying.{write_and_output-Relayed}

module _ (env : Env) {ev : Ev} (laws : EvLaws ev) (hd hu : Bytes) (pcb : Pcb) where
  pub free_all_run :
      (c : TcpRawState) (l : Watchers) (h : Hooks) (t : Trace)
      → free_all ev (some pcb) (world c l h t)
        ≡ tcp_raw_close ev (some pcb) conn (
            world
              (record c { socks_fd = 0 })
              (record l { io = ev.io_stop l.io })
              h
              (closed l.io_fd ∷ t))
  unfolding free_all
  free_all_run c l h t = refl

  free_all-Valid :
      {down up : Bytes} (c : TcpRawState) (l : Watchers) (h : Hooks) (t : Trace)
      → c.pcb ≡ some pcb
      → Flows hd hu down up t
      → Ends (IsValid hd hu pcb) (free_all ev (some pcb) (world c l h t))
  free_all-Valid c l h t mine f = rw (free_all_run c l h t) (
      close-Valid laws pcb (record c { socks_fd = 0 }) (record l { io = ev.io_stop l.io }) h
        (closed l.io_fd ∷ t) mine (inr (laws.io_stop_active l.io)) (Flows-closed f l.io_fd))

  pub timeout_run :
      (c c' : TcpRawState) (l : Watchers) (h : Hooks) (t t' : Trace)
      → c.pcb ≡ some pcb
      → c'.pcb ≡ some pcb
      → write_and_output env (some pcb) (world c l h t) ≡ some (tt, world c' l h t')
      → timeout_cb env ev (world c l h t) ≡ free_all ev (some pcb) (world c' l h t')
  unfolding timeout_cb
  timeout_run c c' l h t t' mine mine' e = ground arith

  -- The timer sends what it can and closes the connection.
  pub timeout-Valid :
      (c : TcpRawState) (l : Watchers) (h : Hooks) (t : Trace)
      → IsOpen pcb c l h
      → c.buf ≡ []
      → Flows hd hu c.socks_buf [] t
      → Ends (IsValid hd hu pcb) (timeout_cb env ev (world c l h t))
  timeout-Valid c l h t o empty f =
      let r = write_and_output-Relayed env hd hu pcb l h c t o empty f in
      rw (timeout_run c r.after l h t r.log o.mine r.still.mine r.ended)
        (free_all-Valid r.after l h r.log r.still.mine r.flows)

  pub block_run :
      (c c' : TcpRawState) (l : Watchers) (h : Hooks) (t t' : Trace)
      → c.pcb ≡ some pcb
      → write_and_output env (some pcb) (world c l h t) ≡ some (tt, world c' l h t')
      → block_cb env ev (world c l h t)
        ≡ some (
          tt,
          world
              (record c' { lwip_blocked = false })
              (record l { block = ev.timer_stop l.block })
              h
              t',
        )
  unfolding block_cb
  block_run c c' l h t t' mine e = ground arith

  -- The block timer sends what it can and keeps the connection.
  pub block-Valid :
      (c : TcpRawState) (l : Watchers) (h : Hooks) (t : Trace)
      → IsOpen pcb c l h
      → c.buf ≡ []
      → Flows hd hu c.socks_buf [] t
      → Ends (IsValid hd hu pcb) (block_cb env ev (world c l h t))
  block-Valid c l h t o empty f =
      let r = write_and_output-Relayed env hd hu pcb l h c t o empty f in
      let a = r.after in
      let o' =
        IsOpen-socks r.still a.socks_buf a.socks_buf_used false r.still.socks_exact
          r.still.socks_bound in
      rw (block_run c r.after l h t r.log o.mine r.ended)
        (IsOpen-timers o' l.timeout (ev.timer_stop l.block) o.once, r.idle, r.flows)

  pub eof_run :
      (c c' : TcpRawState) (l : Watchers) (h : Hooks) (t t' : Trace)
      → write_and_output env (some pcb) (world c l h t) ≡ some (tt, world c' l h t')
      → relay_read env ev (some pcb) (some []) (world c l h t)
        ≡ free_all ev (some pcb) (world c' l h t')
  unfolding relay_read
  eof_run c c' l h t t' e = ground arith

  -- What `relay_read` does with what came from the SOCKS5 socket, at most `BUFFER_SIZE` bytes.
  relay_read-Valid :
      (r : Option Bytes) (c : TcpRawState) (l : Watchers) (h : Hooks) (t : Trace) (fd : ℕ)
      → ((bs : Bytes) → r ≡ some bs → length bs ≤ 1514)
      → length c.socks_buf ≤ 1514
      → IsOpen pcb c l h
      → c.buf ≡ []
      → Flows hd hu c.socks_buf [] t
      → Ends (IsValid hd hu pcb) (relay_read env ev (some pcb) r (world c l h (received fd r ∷ t)))
  unfolding relay_read
  relay_read-Valid none c l h t fd short small o empty f =
      free_all-Valid c l h (received fd none ∷ t) o.mine (Flows-unread f fd)
  relay_read-Valid (some []) c l h t fd short small o empty f =
      let got : Flows hd hu c.socks_buf [] (received fd (some []) ∷ t) =
        rw append-nil at (Flows-received f fd []) in
      let r =
        write_and_output-Relayed env hd hu pcb l h c (received fd (some []) ∷ t) o empty got in
      rw (eof_run c r.after l h _ r.log r.ended)
        (free_all-Valid r.after l h r.log r.still.mine r.flows)
  relay_read-Valid (some (b ∷ bs)) c l h t fd short small o empty f =
      let more : TcpRawState = record c {
        socks_buf = c.socks_buf ++ (b ∷ bs);
        socks_buf_used = (c.socks_buf_used + length (b ∷ bs)) % 2 ^ 16;
      } in
      let size = length-append c.socks_buf (b ∷ bs) in
      let few = short (b ∷ bs) refl in
      let o' : IsOpen pcb more l h =
        IsOpen-socks o more.socks_buf more.socks_buf_used c.lwip_blocked
          (omega (arith, o.socks_exact)) (omega arith) in
      let r =
        write_and_output-Relayed env hd hu pcb l h more (received fd (some (b ∷ bs)) ∷ t) o' empty
          (Flows-received f fd (b ∷ bs)) in
      rw r.ended (r.still, r.idle, r.flows)

  abbrev pub again : Watchers → Watchers
  again l = record l { timeout = ev.timer_again l.timeout }

  pub read_full :
      (c : TcpRawState) (l : Watchers) (h : Hooks) (t : Trace)
      → 1514 < c.socks_buf_used
      → read_cb env ev (world c l h t)
        ≡ some (
          tt,
          world
              (record c { lwip_blocked = true })
              (record l { timeout = ev.timer_again l.timeout; block = ev.timer_start l.block })
              h
              t,
        )
  unfolding read_cb
  read_full c l h t full = ground arith

  pub read_room :
      (c : TcpRawState) (l : Watchers) (h : Hooks) (t : Trace)
      → c.socks_buf_used ≤ 1514
      → c.pcb ≡ some pcb
      → let r = at_most 1514 (env.recv t l.io_fd) in
        read_cb env ev (world c l h t)
        ≡ relay_read env ev (some pcb) r (world c (again l) h (received l.io_fd r ∷ t))
  unfolding read_cb
  read_room c l h t room mine = ground arith

  pub at_most-le : (n : ℕ) (r : Option Bytes) (bs : Bytes) → at_most n r ≡ some bs → length bs ≤ n
  unfolding at_most
  at_most-le n none bs e = cc
  at_most-le n (some cs) bs e = let same : take n cs ≡ bs = cc in rw (← same) (length-take-le n cs)

  -- Data from the SOCKS5 socket is relayed, or waits; an error or its end closes the connection.
  pub read-Valid :
      (c : TcpRawState) (l : Watchers) (h : Hooks) (t : Trace)
      → IsOpen pcb c l h
      → c.buf ≡ []
      → Flows hd hu c.socks_buf [] t
      → Ends (IsValid hd hu pcb) (read_cb env ev (world c l h t))
  read-Valid c l h t o empty f =
      let once : (ev.timer_again l.timeout).repeat ≡ 0 = laws.again_repeat l.timeout ∙ o.once in
      elim (Bool-cases (ltb 1514 c.socks_buf_used)) [
        | inl e ↦ rw (read_full c l h t (ground arith)) (
          IsOpen-timers
              (IsOpen-socks o c.socks_buf c.socks_buf_used true o.socks_exact o.socks_bound)
              (ev.timer_again l.timeout) (ev.timer_start l.block) once,
          empty,
          f,
        )
        | inr e ↦
            let room : c.socks_buf_used ≤ 1514 = ground arith in
            let r = at_most 1514 (env.recv t l.io_fd) in
            rw (read_room c l h t room o.mine) (
              relay_read-Valid r c (again l) h t l.io_fd (λ bs q. at_most-le 1514 _ bs q)
                (omega (arith, o.socks_exact)) (IsOpen-timers o _ l.block once) empty f)
      ]
