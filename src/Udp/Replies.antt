-- ===== src/Udp/Replies.antt =====
-- What the callbacks of src/udp_raw.cpp do with an answer.
use ip2socks.Common.{
  ℕ, ◌≤◌, ◌<◌, ◌≡◌, refl, Bool, true, false, Option, none, some, List, [], ◌∷◌, ◌++◌, Bytes, length,
  drop, ltb, arith,
}
use ip2socks.System.{Ip4, Env, Trace, at_most, ◌>>◌, ◌>>=◌, udp_replied, Pcb, received}
use ip2socks.Tcp.State.{Ev, EvLaws, Timer}
use ip2socks.Tcp.Accepting.{closes}
use ip2socks.Udp.{
  UdpRawState, Handler, udp_socks_relay, tcp_dns, dns_relay, Exchange, E, udp_socks_relay_cb,
  tcp_dns_cb, dns_relay_cb, on_socks_datagram, on_dns_datagram, on_dns_stream, free_dns_query,
  send_back, behind, allocated,
}

abbrev pub callback : Env → Ev → Handler → E (Unit {0})
callback env ev udp_socks_relay = udp_socks_relay_cb env ev
callback env ev tcp_dns = tcp_dns_cb env ev
callback env ev dns_relay = dns_relay_cb env ev

-- The room for an answer, and the bytes before its payload.
abbrev pub room : Handler → ℕ
room udp_socks_relay = 1514
room tcp_dns = 1460
room dns_relay = 1514

abbrev pub header : Handler → ℕ
header udp_socks_relay = 10
header tcp_dns = 2
header dns_relay = 0

-- What was sent back through the stack: pcb, payload, address and port, the last one first.
abbrev pub replies : Trace → List (Pcb × Bytes × Ip4 × ℕ)
replies [] = []
replies (udp_replied pcb bs ip port ∷ t) = (pcb, bs, ip, port) ∷ replies t
replies (e ∷ t) = replies t

-- What an exchange closes, the last one first: the socket that it waits on and, behind a datagram of
-- the SOCKS5 server, the connection to that server before it.
abbrev pub shut : Handler → UdpRawState → ℕ → Option Bytes → List ℕ
shut h c fd none = fd ∷ []
shut h c fd (some []) = fd ∷ []
shut udp_socks_relay c fd (some (b ∷ bs)) = fd ∷ c.socks_tcp_fd ∷ []
shut tcp_dns c fd (some (b ∷ bs)) = fd ∷ []
shut dns_relay c fd (some (b ∷ bs)) = fd ∷ []

-- The stack has memory for every `pbuf`.
abbrev pub HasPbufs : Env → Type 0
HasPbufs env = (t : Trace) (n : ℕ) → env.pbuf_alloc t n ≡ true

-- The exchange is over: its memory is freed and nothing is left that could call back.
pub record IsOver (x : Exchange) : Type 0 where
  pub freed : x.es ≡ none
  pub io_off : x.io ≡ false
  pub timeout_off : x.timeout.active ≡ false

module _ (env : Env) where
  -- What an answer to the exchange sends back.
  abbrev pub reply_to : UdpRawState → ℕ → Option Bytes → List (Pcb × Bytes × Ip4 × ℕ)
  reply_to c n none = []
  reply_to c n (some []) = []
  reply_to c n (some (b ∷ bs)) = (c.pcb, drop n (b ∷ bs), env.inet_addr c.addr_ip, c.udp_port) ∷ []

  -- Whether an answer is none, or has a header.
  abbrev pub Long : ℕ → Option Bytes → Type 0
  Long n none = Unit {0}
  Long n (some []) = Unit {0}
  Long n (some (b ∷ bs)) = n ≤ length (b ∷ bs)

  -- The command ends without a fault, the exchange is over, and just these descriptors were closed
  -- and these replies sent.
  abbrev pub Answered :
      List ℕ → List (Pcb × Bytes × Ip4 × ℕ) → Option (Unit {0} × Exchange) → Type 0
  Answered ds rs none = ⊥
  Answered ds rs (some (tt', x)) = IsOver x × (closes x.trace ≡ ds) × (replies x.trace ≡ rs)

module _ (env : Env) {ev : Ev} (laws : EvLaws ev) where
  -- A live exchange.
  abbrev pub live : UdpRawState → Handler → Bool → ℕ → Timer → Trace → Exchange
  live c h io fd timer t = record {
    es = some c;
    handler = h;
    io = io;
    io_fd = fd;
    timeout = timer;
    trace = t;
  }

  pub freed-Answered :
      (c : UdpRawState) (h : Handler) (io : Bool) (fd : ℕ) (timer : Timer) (t : Trace)
      → Answered env (fd ∷ closes t) (replies t) (free_dns_query env ev (live c h io fd timer t))
  unfolding free_dns_query
  freed-Answered c h io fd timer t = (
    record {
      freed = refl;
      io_off = laws.io_stop_active io;
      timeout_off = ground (arith, laws.stop_active timer);
    },
    refl,
    refl,
  )

  -- With memory for its `pbuf`, a payload is sent back.
  send_back-Answered :
      (payload : Bytes) (k : E (Unit {0})) (c : UdpRawState) (h : Handler) (io : Bool) (fd : ℕ)
      (timer : Timer) (t : Trace) (ds : List ℕ) (rs : List (Pcb × Bytes × Ip4 × ℕ))
      → env.pbuf_alloc t (length payload) ≡ true
      → Answered env ds rs (
          k (
            live c h io fd timer
              (udp_replied c.pcb payload (env.inet_addr c.addr_ip) c.udp_port ∷ t)))
      → Answered env ds rs ((send_back env ev payload >> k) (live c h io fd timer t))
  unfolding send_back allocated
  send_back-Answered payload k c h io fd timer t ds rs room' a = ground (arith, room')

  module _ (memory : HasPbufs env) where
    socks-Answered :
        (r : Option Bytes) (c : UdpRawState) (io : Bool) (fd : ℕ) (timer : Timer) (t : Trace)
        → Long env 10 r
        → Answered env
            (shut udp_socks_relay c fd r ++ closes t)
            (reply_to env c 10 r ++ replies t)
            (on_socks_datagram env ev r (live c udp_socks_relay io fd timer t))
    unfolding on_socks_datagram behind
    socks-Answered none c io fd timer t long = freed-Answered c udp_socks_relay io fd timer t
    socks-Answered (some []) c io fd timer t long = freed-Answered c udp_socks_relay io fd timer t
    socks-Answered (some (b ∷ bs)) c io fd timer t long =
        let e : ltb (length (b ∷ bs)) 10 ≡ false = ground arith in
        rw e (
          send_back-Answered (drop 10 (b ∷ bs)) _ c udp_socks_relay io fd (ev.timer_again timer) t _
            _ (memory t _) (freed-Answered c udp_socks_relay io fd (ev.timer_again timer) _))

    stream-Answered :
        (r : Option Bytes) (c : UdpRawState) (io : Bool) (fd : ℕ) (timer : Timer) (t : Trace)
        → Long env 2 r
        → Answered env
            (shut tcp_dns c fd r ++ closes t)
            (reply_to env c 2 r ++ replies t)
            (on_dns_stream env ev r (live c tcp_dns io fd timer t))
    unfolding on_dns_stream behind
    stream-Answered none c io fd timer t long = freed-Answered c tcp_dns io fd timer t
    stream-Answered (some []) c io fd timer t long = freed-Answered c tcp_dns io fd timer t
    stream-Answered (some (b ∷ bs)) c io fd timer t long =
        let e : ltb (length (b ∷ bs)) 2 ≡ false = ground arith in
        rw e (
          send_back-Answered (drop 2 (b ∷ bs)) _ c tcp_dns io fd timer t _ _ (memory t _)
            (freed-Answered c tcp_dns io fd timer _))

    datagram-Answered :
        (r : Option Bytes) (c : UdpRawState) (io : Bool) (fd : ℕ) (timer : Timer) (t : Trace)
        → Answered env
            (shut dns_relay c fd r ++ closes t)
            (reply_to env c 0 r ++ replies t)
            (on_dns_datagram env ev r (live c dns_relay io fd timer t))
    unfolding on_dns_datagram
    datagram-Answered none c io fd timer t = freed-Answered c dns_relay io fd timer t
    datagram-Answered (some []) c io fd timer t = freed-Answered c dns_relay io fd timer t
    datagram-Answered (some (b ∷ bs)) c io fd timer t =
        send_back-Answered (b ∷ bs) _ c dns_relay io fd (ev.timer_again timer) t _ _ (memory t _)
          (freed-Answered c dns_relay io fd (ev.timer_again timer) _)

    callback-Answered :
        (h : Handler) (c : UdpRawState) (io : Bool) (fd : ℕ) (timer : Timer) (t : Trace)
        → Long env (header h) (at_most (room h) (env.recv t fd))
        → Answered env
            (shut h c fd (at_most (room h) (env.recv t fd)) ++ closes t)
            (reply_to env c (header h) (at_most (room h) (env.recv t fd)) ++ replies t)
            (callback env ev h (live c h io fd timer t))
    unfolding udp_socks_relay_cb tcp_dns_cb dns_relay_cb
    callback-Answered udp_socks_relay c io fd timer t long =
        socks-Answered (at_most 1514 (env.recv t fd)) c io fd timer (received fd _ ∷ t) long
    callback-Answered tcp_dns c io fd timer t long =
        stream-Answered (at_most 1460 (env.recv t fd)) c io fd (ev.timer_again timer)
          (received fd _ ∷ t) long
    callback-Answered dns_relay c io fd timer t long =
        datagram-Answered (at_most 1514 (env.recv t fd)) c io fd timer (received fd _ ∷ t)

  pub answered :
      (ds : List ℕ) (rs : List (Pcb × Bytes × Ip4 × ℕ)) (r : Option (Unit {0} × Exchange))
      → Answered env ds rs r
      → (x : Exchange) × (r ≡ some (tt, x))
        × IsOver x
        × (closes x.trace ≡ ds)
        × (replies x.trace ≡ rs)
  answered ds rs none a = absurd a
  answered ds rs (some (tt', x)) a = (x, refl, a.0, a.1, a.2)

  -- If the stack has memory for every `pbuf`, each of the three callbacks on a live exchange, if the
  -- answer that is read is none, the end of the stream, or not shorter than the header before its
  -- payload, ends without a fault. The exchange is then over: its memory is freed, its watchers are
  -- off, and it has closed the socket that it waited on and, behind a datagram of the SOCKS5 server,
  -- before it the connection to that server, and nothing else. What it has sent back is nothing, or
  -- just the payload behind the header, to the address and the port that the datagram came from.
  pub callback-IsOver :
      HasPbufs env
      → (h : Handler) (c : UdpRawState) (io : Bool) (fd : ℕ) (timer : Timer) (t : Trace)
      → Long env (header h) (at_most (room h) (env.recv t fd))
      → (x : Exchange) × (callback env ev h (live c h io fd timer t) ≡ some (tt, x))
        × IsOver x
        × (closes x.trace ≡ shut h c fd (at_most (room h) (env.recv t fd)) ++ closes t)
        × (replies x.trace
            ≡ reply_to env c (header h) (at_most (room h) (env.recv t fd)) ++ replies t)
  callback-IsOver memory h c io fd timer t long =
      answered _ _ (callback env ev h (live c h io fd timer t))
        (callback-Answered memory h c io fd timer t long)

  -- A stack with no memory for the `pbuf` of an answer makes its callback write through NULL.
  out_of_pbufs :
      (c : UdpRawState) (h : Handler) (io : Bool) (fd : ℕ) (timer : Timer) (t : Trace)
      (payload : Bytes)
      → env.pbuf_alloc t (length payload) ≡ false
      → send_back env ev payload (live c h io fd timer t) ≡ none
  unfolding send_back allocated
  out_of_pbufs c h io fd timer t payload full = rw (full, ◌>>=◌, ◌>>◌) refl

  -- An answer of at least one byte that is shorter than its header makes the callback copy a
  -- payload of negative length.
  callback_underflows :
      (h : Handler) (c : UdpRawState) (io : Bool) (fd : ℕ) (timer : Timer) (t : Trace) (b : ℕ)
      (bs : Bytes)
      → at_most (room h) (env.recv t fd) ≡ some (b ∷ bs)
      → length (b ∷ bs) < header h
      → callback env ev h (live c h io fd timer t) ≡ none
  unfolding udp_socks_relay_cb tcp_dns_cb on_socks_datagram on_dns_stream behind
  callback_underflows udp_socks_relay c io fd timer t b bs e short = ground arith
  callback_underflows tcp_dns c io fd timer t b bs e short = ground arith
  callback_underflows dns_relay c io fd timer t b bs e short = absurd (omega arith)
