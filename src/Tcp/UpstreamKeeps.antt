-- ===== src/Tcp/UpstreamKeeps.antt =====
-- The callbacks of lwIP keep the invariant of a relayed connection (src/tcp_raw.cpp).
use ip2socks.Common.{
  ◌+◌, ◌%◌, ◌^◌, ◌<◌, ◌≡◌, ◌⊎◌, inl, refl, ap, Option, none, some, [], ◌∷◌, ◌++◌, arith, Bytes,
  length, length-append,
}
use ip2socks.System.{
  Env, Trace, pbuf_copied, pbuf_freed, ◌>>=◌, Pcb, ◌>>◌, pure, LwipErr, err_ok, err_mem, err_code,
}
use ip2socks.Tcp.State.{
  TcpRawStates, es_none, es_accepted, es_received, es_closing, TcpRawState, Ev, EvLaws, Watchers,
  conn, Hooks,
}
use ip2socks.Tcp.Close.{tcp_raw_close}
use ip2socks.Tcp.Closing.{world}
use ip2socks.Tcp.Upstream.{
  tcp_raw_send, append_payload, recv_payload, recv_closed, recv_failed, tcp_raw_recv, tcp_raw_sent,
  tcp_raw_poll, tcp_raw_error, flush_or_close,
}
use ip2socks.Tcp.Flows.{Flows, Flows-copied, Flows-freed}
use ip2socks.Tcp.Invariant.{
  IsOpen, IsOpen-buf, IsOpen-received, IsOpen-retries, IsValid, Ends, Ends-pure, Ends-after,
  close-Valid,
}
use ip2socks.Tcp.Sending.{send-Valid}

module _ (env : Env) {ev : Ev} (laws : EvLaws ev) (hd hu : Bytes) (pcb : Pcb) where
  abbrev pub appended : TcpRawState → Bytes → TcpRawState
  appended c p = record c { buf = c.buf ++ p; buf_used = (c.buf_used + length p) % 2 ^ 16 }

  pub append_run :
      (c : TcpRawState) (l : Watchers) (h : Hooks) (t : Trace) (p : Bytes)
      → length p < 65536
      → (append_payload env ev p >> tcp_raw_send env ev pcb) (world c l h t)
        ≡ tcp_raw_send env ev pcb (world (appended c p) l h (pbuf_copied p ∷ t))
  unfolding append_payload
  append_run c l h t p fits = ground arith

  -- A payload that fits the buffer on the stack is copied, sent on, and nothing is left waiting.
  payload-Valid :
      (c : TcpRawState) (l : Watchers) (h : Hooks) (t : Trace) (p : Bytes)
      → IsOpen pcb c l h
      → c.buf ≡ []
      → Flows hd hu c.socks_buf [] t
      → length p < 65536
      → Ends
          (IsValid hd hu pcb)
          ((append_payload env ev p >> tcp_raw_send env ev pcb) (world c l h t))
  payload-Valid c l h t p o empty f fits =
      let exact : (c.buf_used + length p) % 2 ^ 16 ≡ length (c.buf ++ p) =
        omega (arith, o.buf_exact, ap length empty, length-append c.buf p) in
      let copied : Flows hd hu c.socks_buf (c.buf ++ p) (pbuf_copied p ∷ t) =
        rw empty (Flows-copied f p) in
      rw (append_run c l h t p fits) (
        send-Valid env laws hd hu pcb (appended c p) l h (pbuf_copied p ∷ t)
          (IsOpen-buf o (c.buf ++ p) _ exact) copied)

  pub recv_accepted_run :
      (c : TcpRawState) (l : Watchers) (h : Hooks) (t : Trace) (p : Bytes)
      → recv_payload env ev es_accepted pcb p (world c l h t)
        ≡ recv_payload env ev es_received pcb p (world (record c { state = es_received }) l h t)
  unfolding recv_payload
  recv_accepted_run c l h t p = ground arith

  received-Valid :
      (c : TcpRawState) (l : Watchers) (h : Hooks) (t : Trace) (p : Bytes)
      → IsOpen pcb c l h
      → c.buf ≡ []
      → Flows hd hu c.socks_buf [] t
      → length p < 65536
      → Ends (IsValid hd hu pcb) (recv_payload env ev es_received pcb p (world c l h t))
  unfolding recv_payload
  received-Valid c l h t p o empty f fits =
      Ends-after (IsValid hd hu pcb) (append_payload env ev p) (tcp_raw_send env ev pcb) err_ok
        (world c l h t) (payload-Valid c l h t p o empty f fits)

  recv_payload-Valid :
      (s : TcpRawStates) (c : TcpRawState) (l : Watchers) (h : Hooks) (t : Trace) (p : Bytes)
      → (s ≡ es_accepted) ⊎ (s ≡ es_received)
      → IsOpen pcb c l h
      → c.buf ≡ []
      → Flows hd hu c.socks_buf [] t
      → length p < 65536
      → Ends (IsValid hd hu pcb) (recv_payload env ev s pcb p (world c l h t))
  recv_payload-Valid es_none c l h t p s o empty f fits = absurd (ground arith)
  recv_payload-Valid es_closing c l h t p s o empty f fits = absurd (ground arith)
  recv_payload-Valid es_accepted c l h t p s o empty f fits =
      rw (recv_accepted_run c l h t p)
        (received-Valid (record c { state = es_received }) l h t p (IsOpen-received o) empty f fits)
  recv_payload-Valid es_received c l h t p s o empty f fits =
      received-Valid c l h t p o empty f fits

  -- With nothing waiting, a closed peer closes the connection at once.
  pub recv_closed_run :
      (c : TcpRawState) (l : Watchers) (h : Hooks) (t : Trace)
      → c.buf_used ≡ 0
      → recv_closed env ev pcb (world c l h t)
        ≡ (tcp_raw_close ev (some pcb) conn >>= λ _. pure err_ok)
            (world (record c { state = es_closing }) l h t)
  unfolding recv_closed
  recv_closed_run c l h t idle = rw idle

  recv_closed-Valid :
      (c : TcpRawState) (l : Watchers) (h : Hooks) (t : Trace)
      → IsOpen pcb c l h
      → c.buf ≡ []
      → Flows hd hu c.socks_buf [] t
      → Ends (IsValid hd hu pcb) (recv_closed env ev pcb (world c l h t))
  recv_closed-Valid c l h t o empty f =
      let idle : c.buf_used ≡ 0 = omega (arith, o.buf_exact, ap length empty) in
      rw (recv_closed_run c l h t idle) (
        Ends-pure (IsValid hd hu pcb) (tcp_raw_close ev (some pcb) conn) err_ok _
          (close-Valid laws pcb (record c { state = es_closing }) l h t o.mine (inl o.fd_pos) f))

  recv_failed-Valid :
      (c : TcpRawState) (l : Watchers) (h : Hooks) (t : Trace) (e : LwipErr)
      → IsOpen pcb c l h
      → c.buf ≡ []
      → Flows hd hu c.socks_buf [] t
      → Ends (IsValid hd hu pcb) (recv_failed env ev pcb e (world c l h t))
  unfolding recv_failed
  recv_failed-Valid c l h t e o empty f =
      Ends-pure (IsValid hd hu pcb) (tcp_raw_send env ev pcb) e (world c l h (pbuf_freed ∷ t))
        (send-Valid env laws hd hu pcb c l h (pbuf_freed ∷ t) o (rw empty (Flows-freed f)))

  flush_idle :
      (c : TcpRawState) (l : Watchers) (h : Hooks) (t : Trace)
      → c.buf_used ≡ 0
      → (c.state ≡ es_accepted) ⊎ (c.state ≡ es_received)
      → flush_or_close env ev pcb (world c l h t) ≡ some (tt, world c l h t)
  unfolding flush_or_close
  flush_idle c l h t idle s = ground arith

  pub idle_of :
      {c : TcpRawState} {l : Watchers} {h : Hooks} → IsOpen pcb c l h → c.buf ≡ [] → c.buf_used ≡ 0
  idle_of {c} o empty = omega (arith, o.buf_exact, ap length empty)

  pub sent_run :
      (c : TcpRawState) (l : Watchers) (h : Hooks) (t : Trace)
      → c.buf_used ≡ 0
      → (c.state ≡ es_accepted) ⊎ (c.state ≡ es_received)
      → tcp_raw_sent env ev conn pcb (world c l h t)
        ≡ some (err_ok, world (record c { retries = 0 }) l h t)
  unfolding tcp_raw_sent
  sent_run c l h t idle s = ground (arith, flush_idle (record c { retries = 0 }) l h t idle s)

  pub poll_run :
      (c : TcpRawState) (l : Watchers) (h : Hooks) (t : Trace)
      → c.buf_used ≡ 0
      → (c.state ≡ es_accepted) ⊎ (c.state ≡ es_received)
      → tcp_raw_poll env ev conn pcb (world c l h t) ≡ some (err_ok, world c l h t)
  unfolding tcp_raw_poll
  poll_run c l h t idle s = ground (arith, flush_idle c l h t idle s)

  pub error_run :
      (c : TcpRawState) (l : Watchers) (h : Hooks) (t : Trace) (e : LwipErr)
      → c.pcb ≡ some pcb
      → tcp_raw_error env ev conn e (world c l h t)
        ≡ tcp_raw_close ev (some pcb) conn (world c l h t)
  unfolding tcp_raw_error
  error_run c l h t e mine = ground arith

  -- Each callback of lwIP on a live connection, with a payload below 2 ^ 16 bytes.
  pub recv-Valid :
      (c : TcpRawState) (l : Watchers) (h : Hooks) (t : Trace) (p : Option Bytes) (e : LwipErr)
      → ((bs : Bytes) → p ≡ some bs → length bs < 65536)
      → IsOpen pcb c l h
      → c.buf ≡ []
      → Flows hd hu c.socks_buf [] t
      → Ends (IsValid hd hu pcb) (tcp_raw_recv env ev conn pcb p e (world c l h t))
  unfolding tcp_raw_recv
  recv-Valid c l h t none e fits o empty f = recv_closed-Valid c l h t o empty f
  recv-Valid c l h t (some bs) err_ok fits o empty f =
      recv_payload-Valid c.state c l h t bs o.relaying o empty f (fits bs refl)
  recv-Valid c l h t (some bs) err_mem fits o empty f = recv_failed-Valid c l h t err_mem o empty f
  recv-Valid c l h t (some bs) (err_code n) fits o empty f =
      recv_failed-Valid c l h t (err_code n) o empty f

  pub sent-Valid :
      (c : TcpRawState) (l : Watchers) (h : Hooks) (t : Trace)
      → IsOpen pcb c l h
      → c.buf ≡ []
      → Flows hd hu c.socks_buf [] t
      → Ends (IsValid hd hu pcb) (tcp_raw_sent env ev conn pcb (world c l h t))
  sent-Valid c l h t o empty f =
      rw (sent_run c l h t (idle_of o empty) o.relaying) (IsOpen-retries o 0, empty, f)

  pub poll-Valid :
      (c : TcpRawState) (l : Watchers) (h : Hooks) (t : Trace)
      → IsOpen pcb c l h
      → c.buf ≡ []
      → Flows hd hu c.socks_buf [] t
      → Ends (IsValid hd hu pcb) (tcp_raw_poll env ev conn pcb (world c l h t))
  poll-Valid c l h t o empty f = rw (poll_run c l h t (idle_of o empty) o.relaying) (o, empty, f)

  pub error-Valid :
      (c : TcpRawState) (l : Watchers) (h : Hooks) (t : Trace) (e : LwipErr)
      → IsOpen pcb c l h
      → c.buf ≡ []
      → Flows hd hu c.socks_buf [] t
      → Ends (IsValid hd hu pcb) (tcp_raw_error env ev conn e (world c l h t))
  error-Valid c l h t e o empty f =
      rw (error_run c l h t e o.mine) (close-Valid laws pcb c l h t o.mine (inl o.fd_pos) f)
