-- ===== src/Tcp/Growing/Handlers.antt =====
-- The closing and the callbacks of lwIP in src/tcp_raw.cpp only add to the trace.
use ip2socks.Common.{ℕ, zero, suc, Bool, Option, none, some, Bytes}
use ip2socks.System
use ip2socks.System.{Env, Trace, Pcb, LwipErr, err_ok, err_mem, err_code, Event, Cmd, record_event}
use ip2socks.System.Growing.{Extends-same, Extends-one, Grows-bind}
use ip2socks.Tcp.State.{
  set_hooks, Ev, Ref, null, conn, TcpRawStates, es_none, es_accepted, es_received, es_closing,
}
use ip2socks.Tcp.Close.{
  close_pcb, tcp_raw_free, detach, io_stop, block_stop, timeout_stop, stop_watchers, close_es,
  tcp_raw_close, free_all,
}
use ip2socks.Tcp.Upstream.{
  after_send, tcp_raw_send, tcp_raw_error, flush_or_close, tcp_raw_poll, tcp_raw_sent,
  append_payload, recv_payload, recv_closed, recv_failed, tcp_raw_recv,
}
use ip2socks.Tcp.Growing.{GrowsW-load, GrowsW, GrowsT, GrowsW-sys, growth}

close_pcb-GrowsW : (pcb : Option Pcb) → GrowsW (close_pcb pcb)
unfolding close_pcb
close_pcb-GrowsW none = search growth
close_pcb-GrowsW (some pcb) = search growth

tcp_raw_free-GrowsW : (r : Ref) → GrowsW (tcp_raw_free r)
unfolding tcp_raw_free
tcp_raw_free-GrowsW null = search growth
tcp_raw_free-GrowsW conn = search (growth, close_pcb-GrowsW)

detach-GrowsW : (pcb : Option Pcb) → GrowsW (detach pcb)
unfolding detach
detach-GrowsW none = search growth
detach-GrowsW (some pcb) = search growth

module _ (ev : Ev) where
  GrowsW-io_stop : GrowsW (io_stop ev)
  GrowsW-io_stop = record { at = λ w. Extends-same w.trace }

  pub GrowsW-block_stop : GrowsW (block_stop ev)
  GrowsW-block_stop = record { at = λ w. Extends-same w.trace }

  pub GrowsW-timeout_stop : GrowsW (timeout_stop ev)
  GrowsW-timeout_stop = record { at = λ w. Extends-same w.trace }

  stop_watchers-GrowsW : GrowsW (stop_watchers ev)
  unfolding stop_watchers
  stop_watchers-GrowsW =
      search (growth, GrowsW-io_stop, GrowsW-block_stop, GrowsW-timeout_stop) depth 16

  close_es-GrowsW : (r : Ref) → GrowsW (close_es ev r)
  unfolding close_es
  close_es-GrowsW null = search growth
  close_es-GrowsW conn = search (growth, stop_watchers-GrowsW, tcp_raw_free-GrowsW)

  tcp_raw_close-GrowsW : (p : Option Pcb) (r : Ref) → GrowsW (tcp_raw_close ev p r)
  unfolding tcp_raw_close
  tcp_raw_close-GrowsW p r = search (growth, detach-GrowsW, close_es-GrowsW)

  pub free_all-GrowsW : (p : Option Pcb) → GrowsW (free_all ev p)
  unfolding free_all
  free_all-GrowsW p = search (growth, GrowsW-io_stop, tcp_raw_close-GrowsW) depth 16

module _ (env : Env) (ev : Ev) where
  after_send-GrowsW : (pcb : Pcb) (n : ℕ) (r : Option ℕ) → GrowsW (after_send env ev pcb n r)
  unfolding after_send
  after_send-GrowsW pcb n none = tcp_raw_close-GrowsW ev (some pcb) conn
  after_send-GrowsW pcb n (some zero) = tcp_raw_close-GrowsW ev (some pcb) conn
  after_send-GrowsW pcb n (some (suc k)) = search (growth) depth 16

  GrowsT-send : (fd : ℕ) (bs : Bytes) → GrowsT (System.send env fd bs)
  GrowsT-send fd bs = record { at = λ t. Extends-one _ t }

  tcp_raw_send-GrowsW : (pcb : Pcb) → GrowsW (tcp_raw_send env ev pcb)
  unfolding tcp_raw_send
  tcp_raw_send-GrowsW pcb = search (growth, GrowsW-sys, GrowsT-send, after_send-GrowsW) depth 16

  pub tcp_raw_error-GrowsW : (r : Ref) (e : LwipErr) → GrowsW (tcp_raw_error env ev r e)
  unfolding tcp_raw_error
  tcp_raw_error-GrowsW null e = search growth
  tcp_raw_error-GrowsW conn e = Grows-bind GrowsW-load λ c. by_pcb c.pcb
    where
      by_pcb :
          (p : Option Pcb)
          → GrowsW
              (elim p [ none ↦ tcp_raw_free conn | some pcb ↦ tcp_raw_close ev (some pcb) conn ])
      by_pcb none = tcp_raw_free-GrowsW conn
      by_pcb (some pcb) = tcp_raw_close-GrowsW ev (some pcb) conn

  flush_or_close-GrowsW : (pcb : Pcb) → GrowsW (flush_or_close env ev pcb)
  unfolding flush_or_close
  flush_or_close-GrowsW pcb = search (growth, tcp_raw_send-GrowsW, tcp_raw_close-GrowsW) depth 16

  pub tcp_raw_poll-GrowsW : (r : Ref) (pcb : Pcb) → GrowsW (tcp_raw_poll env ev r pcb)
  unfolding tcp_raw_poll
  tcp_raw_poll-GrowsW null pcb = search (growth) depth 16
  tcp_raw_poll-GrowsW conn pcb = search (growth, flush_or_close-GrowsW) depth 16

  GrowsW-hook_sent : GrowsW (λ w. set_hooks (record (w.hooks) { sent = Bool.true }) w)
  GrowsW-hook_sent = record { at = λ w. Extends-same w.trace }

  pub tcp_raw_sent-GrowsW : (r : Ref) (pcb : Pcb) → GrowsW (tcp_raw_sent env ev r pcb)
  unfolding tcp_raw_sent
  tcp_raw_sent-GrowsW null pcb = search growth
  tcp_raw_sent-GrowsW conn pcb = search (growth, flush_or_close-GrowsW, GrowsW-hook_sent) depth 16

  append_payload-GrowsW : (p : Bytes) → GrowsW (append_payload env ev p)
  unfolding append_payload
  append_payload-GrowsW p = search (growth) depth 16

  recv_payload-GrowsW :
      (s : TcpRawStates) (pcb : Pcb) (p : Bytes) → GrowsW (recv_payload env ev s pcb p)
  unfolding recv_payload
  recv_payload-GrowsW es_none pcb p = search (growth, tcp_raw_send-GrowsW) depth 16
  recv_payload-GrowsW es_closing pcb p = search (growth, tcp_raw_send-GrowsW) depth 16
  recv_payload-GrowsW es_accepted pcb p =
      search (growth, append_payload-GrowsW, tcp_raw_send-GrowsW) depth 16
  recv_payload-GrowsW es_received pcb p =
      search (growth, append_payload-GrowsW, tcp_raw_send-GrowsW) depth 16

  recv_closed-GrowsW : (pcb : Pcb) → GrowsW (recv_closed env ev pcb)
  unfolding recv_closed
  recv_closed-GrowsW pcb = search (growth, tcp_raw_send-GrowsW, tcp_raw_close-GrowsW) depth 16

  recv_failed-GrowsW : (pcb : Pcb) (e : LwipErr) → GrowsW (recv_failed env ev pcb e)
  unfolding recv_failed
  recv_failed-GrowsW pcb e = search (growth, tcp_raw_send-GrowsW) depth 16

  pub tcp_raw_recv-GrowsW :
      (r : Ref) (pcb : Pcb) (p : Option Bytes) (e : LwipErr)
      → GrowsW (tcp_raw_recv env ev r pcb p e)
  unfolding tcp_raw_recv
  tcp_raw_recv-GrowsW null pcb p e = search growth
  tcp_raw_recv-GrowsW conn pcb none e = recv_closed-GrowsW pcb
  tcp_raw_recv-GrowsW conn pcb (some p) e =
      search (growth, recv_payload-GrowsW, recv_failed-GrowsW) depth 16
