-- ===== src/Udp.antt =====
-- The callbacks of src/udp_raw.cpp: the answer to a datagram that was passed on comes back.
pub mod Wire
pub mod Query
pub mod Formats
pub mod Blocking
pub mod Forwarding
pub mod Replies
pub mod Events
pub mod Lifetime
pub mod Answering
pub mod Associating
pub mod Connecting
pub mod Passing
pub mod Asking
pub mod Handling
use ip2socks.Common.{
  ℕ, ◌+◌, Bool, true, false, Option, none, some, [], ◌∷◌, Bytes, length, drop, ltb, if◌then◌else◌,
}
use ip2socks.System.{
  Ip4, SockAddr, Trace, Env, Cmd, closed, udp_replied, Pcb, pure, fault, ◌>>=◌, ◌>>◌, record_event,
}
use ip2socks.System
use ip2socks.Tcp.State.{Ev, Timer}
use ip2socks.Tcp.Downstream.{buffer_size}

abbrev pub udp_buffer_size : ℕ
udp_buffer_size = 1460

-- `struct udp_raw_state`, but for its watchers and for `state` and `retries`, which are never read.
pub record UdpRawState : Type 0 where
  pub socks_tcp_fd : ℕ
  pub pcb : Pcb
  pub addr : SockAddr
  pub addr_ip : Bytes
  pub udp_port : ℕ

-- What the `ev_io` of `es` calls.
pub data Handler : Type 0 where
  udp_socks_relay tcp_dns dns_relay : Handler

-- One exchange: `es`, `none` before it is allocated and once it is freed, its watchers and the
-- trace.
pub record Exchange : Type 0 where
  pub es : Option UdpRawState
  pub handler : Handler
  pub io : Bool
  pub io_fd : ℕ
  pub timeout : Timer
  pub trace : Trace

abbrev pub E : Type 0 → Type 0
E = Cmd Exchange

abbrev pub sys : {A : Type 0} → Cmd Trace A → E A
sys m x = elim (m x.trace) [ none ↦ none | some (a, t) ↦ some (a, record x { trace = t }) ]

abbrev pub load : E UdpRawState
load x = elim x.es [ none ↦ none | some c ↦ some (c, x) ]

-- `free(es)`.
abbrev release : E (Unit {0})
release x = elim x.es [ none ↦ none | some _ ↦ some (tt, record x { es = none }) ]

module _ (env : Env) (ev : Ev) where
  abbrev stop_io : E (Unit {0})
  stop_io x = some (tt, record x { io = ev.io_stop x.io })

  abbrev stop_timeout : E (Unit {0})
  stop_timeout x =
      some
        (tt, record x { timeout = if x.timeout.active then ev.timer_stop x.timeout else x.timeout })

  abbrev timeout_again : E (Unit {0})
  timeout_again x = some (tt, record x { timeout = ev.timer_again x.timeout })

  unfoldable pub free_dns_query : E (Unit {0})
  free_dns_query = do
    fd ← λ x. some (x.io_fd, x)
    sys (record_event (closed fd))
    stop_io
    stop_timeout
    release

  -- `pbuf_alloc`, whose result is written through untested: with no memory that is a fault.
  unfoldable pub allocated : ℕ → E (Unit {0})
  allocated n x = if env.pbuf_alloc x.trace n then some (tt, x) else none

  -- A `pbuf` with the payload, given to `udp_sendto` and freed; its result is only printed.
  unfoldable pub send_back : Bytes → E (Unit {0})
  send_back payload = do
    allocated (length payload)
    c ← load
    sys (record_event (udp_replied c.pcb payload (env.inet_addr c.addr_ip) c.udp_port))

  -- The bytes of an answer behind its first `n`; an answer that is shorter gives a length below
  -- zero, which `memcpy` takes for a huge one.
  unfoldable pub behind : ℕ → Bytes → E Bytes
  behind n bs = if ltb (length bs) n then fault else pure (drop n bs)

  -- What came on the UDP socket of the SOCKS5 server.
  unfoldable pub on_socks_datagram : Option Bytes → E (Unit {0})
  on_socks_datagram none = free_dns_query
  on_socks_datagram (some []) = free_dns_query
  on_socks_datagram (some (b ∷ bs)) = do
    timeout_again
    payload ← behind 10 (b ∷ bs)
    send_back payload
    c ← load
    sys (record_event (closed c.socks_tcp_fd))
    free_dns_query

  unfoldable pub udp_socks_relay_cb : E (Unit {0})
  udp_socks_relay_cb = do
    fd ← λ x. some (x.io_fd, x)
    nread ← sys (System.recv env fd buffer_size)
    on_socks_datagram nread

  -- What came from a DNS server over UDP.
  unfoldable pub on_dns_datagram : Option Bytes → E (Unit {0})
  on_dns_datagram none = free_dns_query
  on_dns_datagram (some []) = free_dns_query
  on_dns_datagram (some (b ∷ bs)) = do timeout_again; send_back (b ∷ bs); free_dns_query

  unfoldable pub dns_relay_cb : E (Unit {0})
  dns_relay_cb = do
    fd ← λ x. some (x.io_fd, x)
    nread ← sys (System.recv env fd buffer_size)
    on_dns_datagram nread

  -- What came from a DNS server over TCP, behind the two bytes of its length.
  unfoldable pub on_dns_stream : Option Bytes → E (Unit {0})
  on_dns_stream none = free_dns_query
  on_dns_stream (some []) = free_dns_query
  on_dns_stream (some (b ∷ bs)) = do payload ← behind 2 (b ∷ bs); send_back payload; free_dns_query

  unfoldable pub tcp_dns_cb : E (Unit {0})
  tcp_dns_cb = do
    fd ← λ x. some (x.io_fd, x)
    length' ← sys (System.recv env fd udp_buffer_size)
    timeout_again
    on_dns_stream length'

  unfoldable pub udp_timeout_cb : E (Unit {0})
  udp_timeout_cb = free_dns_query
