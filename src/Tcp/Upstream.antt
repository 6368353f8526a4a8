-- ===== src/Tcp/Upstream.antt =====
-- The callbacks that lwIP makes on a relayed connection: `tcp_raw_send`, `tcp_raw_error`,
-- `tcp_raw_poll`, `tcp_raw_sent` and `tcp_raw_recv` of src/tcp_raw.cpp.
use ip2socks.Common.{
  ℕ, zero, suc, [], ◌+◌, ◌%◌, ◌^◌, Bool, Option, none, some, ◌++◌, Bytes, length, ltb, leb,
  if◌then◌else◌,
}
use ip2socks.System
use ip2socks.System.{
  Env, LwipErr, err_ok, err_mem, err_code, Pcb, pure, fault, ◌>>=◌, ◌>>◌, record_event, tcp_acked,
  tcp_aborted, pbuf_copied, pbuf_freed,
}
use ip2socks.Tcp.State.{
  TcpRawStates, es_accepted, es_received, es_closing, Ev, Ref, null, conn, W, sys, load, store,
  c_str_bytes, set_hooks,
}
use ip2socks.Tcp.Close.{tcp_raw_free, tcp_raw_close}

abbrev pub is_ok : LwipErr → Bool
is_ok err_ok = Bool.true
is_ok err_mem = Bool.false
is_ok (err_code n) = Bool.false

abbrev pub is_closing : TcpRawStates → Bool
is_closing es_closing = Bool.true
is_closing _ = Bool.false

-- `ERR_ABRT` and `ERR_ARG` of lwIP.
abbrev pub err_abrt : LwipErr
err_abrt = err_code 13

abbrev pub err_arg : LwipErr
err_arg = err_code 16

-- `TCP_WND`, the size of the buffer on the stack of `tcp_raw_recv`.
abbrev pub tcp_wnd : ℕ
tcp_wnd = 65535

module _ (env : Env) (ev : Ev) where
  -- What follows the `send` of `tcp_raw_send`, by its result.
  unfoldable pub after_send : Pcb → ℕ → Option ℕ → W (Unit {0})
  after_send tpcb plen none = tcp_raw_close ev (some tpcb) conn
  after_send tpcb plen (some zero) = tcp_raw_close ev (some tpcb) conn
  after_send tpcb plen (some (suc n)) = do
    c ← load
    store (record c { buf = []; buf_used = 0 })
    sys (record_event (tcp_acked tpcb plen))

  unfoldable pub tcp_raw_send : Pcb → W (Unit {0})
  tcp_raw_send tpcb = do
    c ← load
    if ltb 0 c.buf_used
        then (do
          bs ← c_str_bytes c.buf c.buf_used
          ret ← sys (System.send env c.socks_fd bs)
          after_send tpcb c.buf_used ret)
        else pure tt

  -- `tcp_raw_error`; its second argument is only printed.
  unfoldable pub tcp_raw_error : Ref → LwipErr → W (Unit {0})
  tcp_raw_error null e = pure tt
  tcp_raw_error conn e = do
    c ← load
    elim c.pcb [ none ↦ tcp_raw_free conn | some pcb ↦ tcp_raw_close ev (some pcb) conn ]

  -- The end of `tcp_raw_poll` and of `tcp_raw_sent`: send what is left, or close.
  unfoldable pub flush_or_close : Pcb → W (Unit {0})
  flush_or_close tpcb = do
    c ← load
    if ltb 0 c.buf_used
        then tcp_raw_send tpcb
        else if is_closing c.state
        then tcp_raw_close ev (some tpcb) conn
        else pure tt

  unfoldable pub tcp_raw_poll : Ref → Pcb → W LwipErr
  tcp_raw_poll null tpcb = do sys (record_event (tcp_aborted tpcb)); pure err_abrt
  tcp_raw_poll conn tpcb = do flush_or_close tpcb; pure err_ok

  -- `tcp_raw_sent`, which reads `es` with no test for NULL.
  unfoldable pub tcp_raw_sent : Ref → Pcb → W LwipErr
  tcp_raw_sent null tpcb = fault
  tcp_raw_sent conn tpcb = do
    c ← load
    store (record c { retries = 0 })
    (if ltb 0 c.buf_used
        then (λ w. set_hooks (record (w.hooks) { sent = Bool.true }) w)
        else pure tt)
    flush_or_close tpcb
    pure err_ok

  -- `pbuf_copy_partial` into the buffer on the stack, and the append to `es->buf`.
  unfoldable pub append_payload : Bytes → W (Unit {0})
  append_payload p = if ltb tcp_wnd (length p) then fault else (do
    sys (record_event (pbuf_copied p))
    c ← load
    store (record c { buf = c.buf ++ p; buf_used = (c.buf_used + length p) % 2 ^ 16 }))

  -- `tcp_raw_recv` with a payload and `ERR_OK`, by `es->state`.
  unfoldable pub recv_payload : TcpRawStates → Pcb → Bytes → W LwipErr
  recv_payload es_accepted tpcb p = do
    c ← load
    store (record c { state = es_received })
    append_payload p
    tcp_raw_send tpcb
    pure err_ok
  recv_payload es_received tpcb p = do append_payload p; tcp_raw_send tpcb; pure err_ok
  recv_payload _ tpcb p = do
    sys (record_event (tcp_acked tpcb (length p)))
    sys (record_event pbuf_freed)
    tcp_raw_send tpcb
    pure err_ok

  -- `p == NULL`: the other host closed the connection.
  unfoldable pub recv_closed : Pcb → W LwipErr
  recv_closed tpcb = do
    c ← load
    store (record c { state = es_closing })
    (if leb c.buf_used 0 then tcp_raw_close ev (some tpcb) conn else tcp_raw_send tpcb)
    pure err_ok

  unfoldable pub recv_failed : Pcb → LwipErr → W LwipErr
  recv_failed tpcb e = do sys (record_event pbuf_freed); tcp_raw_send tpcb; pure e

  unfoldable pub tcp_raw_recv : Ref → Pcb → Option Bytes → LwipErr → W LwipErr
  tcp_raw_recv null tpcb p e = pure err_arg
  tcp_raw_recv conn tpcb none e = recv_closed tpcb
  tcp_raw_recv conn tpcb (some p) e =
      if is_ok e then (do c ← load; recv_payload c.state tpcb p) else recv_failed tpcb e
