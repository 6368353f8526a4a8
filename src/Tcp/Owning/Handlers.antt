-- ===== src/Tcp/Owning/Handlers.antt =====
-- The callbacks that lwIP makes on a connection of src/tcp_raw.cpp keep what it owns.
use ip2socks.Common.{ℕ, zero, suc, ◌<◌, refl, Bool, Option, none, some, List, Bytes}
use ip2socks.System
use ip2socks.System.{
  Env, Pcb, LwipErr, tcp_acked, tcp_aborted, pbuf_copied, pbuf_freed, record_event,
}
use ip2socks.Tcp.State.{
  W, Ev, Ref, null, conn, TcpRawStates, es_none, es_accepted, es_received, es_closing, sys,
  set_hooks, c_str_bytes,
}
use ip2socks.Tcp.Close.{tcp_raw_close}
use ip2socks.Tcp.Upstream.{
  after_send, tcp_raw_send, tcp_raw_error, flush_or_close, tcp_raw_poll, tcp_raw_sent,
  append_payload, recv_payload, recv_closed, recv_failed, tcp_raw_recv,
}
use ip2socks.Tcp.Owning.{
  KeepsOwns, KeepsOwns-sys, KeepsOwns-record, KeepsOwns-load, KeepsOwns-close, owning,
}

module _ (pcb : Pcb) (fd : ℕ) (fds : List ℕ) (pcbs : List Pcb) where
  abbrev pub Keeps : {A : Type 0} → W A → Type 0
  Keeps m = KeepsOwns pcb fd fds pcbs m

  Keeps-acked : (p : Pcb) (n : ℕ) → Keeps (sys (record_event (tcp_acked p n)))
  Keeps-acked p n = KeepsOwns-record pcb fd fds pcbs _ λ t. record { fds = refl; pcbs = refl }

  Keeps-aborted : (p : Pcb) → Keeps (sys (record_event (tcp_aborted p)))
  Keeps-aborted p = KeepsOwns-record pcb fd fds pcbs _ λ t. record { fds = refl; pcbs = refl }

  Keeps-copied : (bs : Bytes) → Keeps (sys (record_event (pbuf_copied bs)))
  Keeps-copied bs = KeepsOwns-record pcb fd fds pcbs _ λ t. record { fds = refl; pcbs = refl }

  Keeps-freed : Keeps (sys (record_event pbuf_freed))
  Keeps-freed = KeepsOwns-record pcb fd fds pcbs _ λ t. record { fds = refl; pcbs = refl }

  Keeps-c_str : (s : Bytes) (n : ℕ) → Keeps (c_str_bytes s n)
  unfolding c_str_bytes
  Keeps-c_str s n = search owning

  Keeps-hook_sent : Keeps (λ w. set_hooks (record (w.hooks) { sent = Bool.true }) w)
  Keeps-hook_sent = record { at = λ w h. h }

  module _ (env : Env) (ev : Ev) (pos : 0 < fd) where
    Keeps-send : (d : ℕ) (bs : Bytes) → Keeps (sys (System.send env d bs))
    Keeps-send d bs =
        KeepsOwns-sys pcb fd fds pcbs (System.send env d bs)
          (record { at = λ t. record { fds = refl; pcbs = refl } })

    Keeps-close : Keeps (tcp_raw_close ev (some pcb) conn)
    Keeps-close = KeepsOwns-close pcb fd fds pcbs ev pos

    after_send-Keeps : (n : ℕ) (r : Option ℕ) → Keeps (after_send env ev pcb n r)
    unfolding after_send
    after_send-Keeps n none = Keeps-close
    after_send-Keeps n (some zero) = Keeps-close
    after_send-Keeps n (some (suc k)) = search (owning, Keeps-acked) depth 16

    tcp_raw_send-Keeps : Keeps (tcp_raw_send env ev pcb)
    unfolding tcp_raw_send
    tcp_raw_send-Keeps = search (owning, Keeps-c_str, Keeps-send, after_send-Keeps) depth 16

    pub tcp_raw_error-Keeps : (r : Ref) (e : LwipErr) → Keeps (tcp_raw_error env ev r e)
    unfolding tcp_raw_error
    tcp_raw_error-Keeps null e = search owning
    tcp_raw_error-Keeps conn e =
        KeepsOwns-load pcb fd fds pcbs λ c is_fd is_pcb. rw is_pcb Keeps-close

    flush_or_close-Keeps : Keeps (flush_or_close env ev pcb)
    unfolding flush_or_close
    flush_or_close-Keeps = search (owning, tcp_raw_send-Keeps, Keeps-close) depth 16

    pub tcp_raw_poll-Keeps : (r : Ref) → Keeps (tcp_raw_poll env ev r pcb)
    unfolding tcp_raw_poll
    tcp_raw_poll-Keeps null = search (owning, Keeps-aborted) depth 16
    tcp_raw_poll-Keeps conn = search (owning, flush_or_close-Keeps) depth 16

    pub tcp_raw_sent-Keeps : (r : Ref) → Keeps (tcp_raw_sent env ev r pcb)
    unfolding tcp_raw_sent
    tcp_raw_sent-Keeps null = search owning
    tcp_raw_sent-Keeps conn = search (owning, flush_or_close-Keeps, Keeps-hook_sent) depth 16

    append_payload-Keeps : (p : Bytes) → Keeps (append_payload env ev p)
    unfolding append_payload
    append_payload-Keeps p = search (owning, Keeps-copied) depth 16

    recv_payload-Keeps : (s : TcpRawStates) (p : Bytes) → Keeps (recv_payload env ev s pcb p)
    unfolding recv_payload
    recv_payload-Keeps es_none p =
        search (owning, Keeps-acked, Keeps-freed, tcp_raw_send-Keeps) depth 16
    recv_payload-Keeps es_closing p =
        search (owning, Keeps-acked, Keeps-freed, tcp_raw_send-Keeps) depth 16
    recv_payload-Keeps es_accepted p =
        search (owning, append_payload-Keeps, tcp_raw_send-Keeps) depth 16
    recv_payload-Keeps es_received p =
        search (owning, append_payload-Keeps, tcp_raw_send-Keeps) depth 16

    recv_closed-Keeps : Keeps (recv_closed env ev pcb)
    unfolding recv_closed
    recv_closed-Keeps = search (owning, tcp_raw_send-Keeps, Keeps-close) depth 16

    recv_failed-Keeps : (e : LwipErr) → Keeps (recv_failed env ev pcb e)
    unfolding recv_failed
    recv_failed-Keeps e = search (owning, Keeps-freed, tcp_raw_send-Keeps) depth 16

    pub tcp_raw_recv-Keeps :
        (r : Ref) (p : Option Bytes) (e : LwipErr) → Keeps (tcp_raw_recv env ev r pcb p e)
    unfolding tcp_raw_recv
    tcp_raw_recv-Keeps null p e = search owning
    tcp_raw_recv-Keeps conn none e = recv_closed-Keeps
    tcp_raw_recv-Keeps conn (some p) e =
        search (owning, recv_payload-Keeps, recv_failed-Keeps) depth 16
