-- ===== src/Socks5.antt =====
-- src/socks5.cpp and src/socks5.h: the client side of a SOCKS5 connection, as commands on the
-- trace.
use ip2socks.Common.{
  ℕ, ◌+◌, ◌/◌, ◌%◌, Bool, false, ◌&&◌, Option, none, some, [], ◌∷◌, ◌++◌, leb, ◌==◌, if◌then◌else◌,
  Bytes, length, drop, get_or,
}
pub mod Request
pub mod Auth
use mathlib.Core.Option
use ip2socks.Numbers.{atoi}
use ip2socks.System.{
  SockOption, rcvtimeo, sndtimeo, reuseaddr, stream, Ip4, ip_bytes, memory, SockAddr, Trace, Env,
  Cmd, pure, fault, ◌>>=◌, ◌>>◌,
}
use ip2socks.System

abbrev pub socks5_version : ℕ
socks5_version = 5

-- `char buff[BUFFER_SIZE]` as the bytes written to its start; a call that fills it replaces a
-- prefix.
abbrev pub fill : Bytes → Bytes → Bytes
fill buff bs = bs ++ drop (length bs) buff

-- `htons(atoi(port))`: the low 16 bits, most significant byte first on the wire.
abbrev pub port_bytes : ℕ → Bytes
port_bytes p = (p / 256 % 256) ∷ (p % 256) ∷ []

-- `socks5_method_req_t` with the one method 0, no authentication.
abbrev pub method_request : Bytes
method_request = socks5_version ∷ 1 ∷ 0 ∷ []

-- The request for an IPv4 address.
unfoldable pub request_ipv4 : ℕ → Ip4 → ℕ → Bytes
request_ipv4 cmd addr p = 5 ∷ cmd ∷ 0 ∷ 1 ∷ (ip_bytes addr ++ port_bytes p)

-- Whether the answer to the method request is version 5 and method 0.
unfoldable pub method_chosen : Bytes → Bool
method_chosen buff = get_or buff 0 0 == socks5_version && get_or buff 1 0 == 0

-- Whether the reply to the request begins with version 5.
unfoldable pub version_ok : Bytes → Bool
version_ok buff = get_or buff 0 0 == socks5_version

-- Bytes put into an allocated buffer, by `memcpy` at its write position; beyond the end is a fault.
unfoldable pub heap_put : {S : Type 0} → ℕ → Bytes → Bytes → Cmd S Bytes
heap_put size buffer bs =
    if leb (length buffer + length bs) size then pure (buffer ++ bs) else fault

module _ (env : Env) where
  -- `none` of these results is the source's -1; `true` is its 0.
  unfoldable pub socks5_sockset : ℕ → Cmd Trace Bool
  socks5_sockset fd = do
    rcv ← System.setsockopt env fd rcvtimeo
    snd ← if rcv then System.setsockopt env fd sndtimeo else pure false
    if snd then System.setsockopt env fd reuseaddr else pure false

  unfoldable pub socks5_connect : Bytes → Bytes → Cmd Trace (Option ℕ)
  unfolding socks5_sockset
  socks5_connect host port = do
    let addr : SockAddr = record { ip = env.inet_addr host; port = atoi port % 65536 }
    fd? ← System.socket env stream
    elim fd? [
      | none ↦ pure none
      | some fd ↦ do
        _ ← socks5_sockset fd
        done ← System.connect env fd addr
        if done then pure (some fd) else pure none
    ]

  -- `inet_aton` into fresh memory, which keeps what it held if the text is no address.
  unfoldable pub aton_fresh : Bytes → Cmd Trace Ip4
  aton_fresh host t =
      let m = env.uninit t in
      some (Option.get_or (env.inet_aton host) (record { a = m 0; b = m 1; c = m 2; d = m 3 }), t)

  -- The request for a domain name, put together in a buffer of `strlen(server_host) + 7` bytes. The
  -- last `memcpy` takes `sizeof(&port)` bytes, eight, of which the two of `port` are known.
  unfoldable pub request_domain : Bytes → Bytes → ℕ → Cmd Trace Bytes
  unfolding heap_put
  request_domain host port cmd t =
      let size = length host + 7 in
      let rest = memory (env.uninit t) 6 0 in
      (do
        b ← heap_put size [] (5 ∷ [])
        b ← heap_put size b (cmd ∷ [])
        b ← heap_put size b (0 ∷ [])
        b ← heap_put size b (3 ∷ [])
        b ← heap_put size b ((length host % 256) ∷ [])
        b ← heap_put size b host
        heap_put size b (port_bytes (atoi port) ++ rest))
        t

  -- The part of `socks5_auth` between the two answers of the server.
  unfoldable pub send_request : ℕ → Bytes → Bytes → ℕ → ℕ → Cmd Trace (Unit {0})
  send_request fd host port cmd atype =
      if atype == 1
      then (do
        addr ← aton_fresh host
        _ ← System.send env fd (request_ipv4 cmd addr (atoi port))
        pure tt)
      else if atype == 3
      then (do req ← request_domain host port cmd; _ ← System.send env fd req; pure tt)
      else pure tt

  unfoldable pub await_reply : ℕ → Bytes → Cmd Trace Bool
  await_reply fd buff = do
    answer ← System.recv env fd 10
    elim answer [ none ↦ pure false | some bs ↦ pure (version_ok (fill buff bs)) ]

  unfoldable pub socks5_auth : ℕ → Bytes → Bytes → ℕ → ℕ → Cmd Trace Bool
  socks5_auth fd host port cmd atype = do
    _ ← System.send env fd method_request
    choice ← System.recv env fd 2
    elim choice [
      | none ↦ pure false
      | some bs ↦ do
        let buff = fill method_request bs
        if method_chosen buff
            then (do send_request fd host port cmd atype; await_reply fd buff)
            else pure false
    ]
