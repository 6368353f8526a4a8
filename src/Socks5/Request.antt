-- ===== src/Socks5/Request.antt =====
-- What the requests of src/socks5.cpp say to a SOCKS5 server.
use ip2socks.Common.{
  ℕ, ◌+◌, ◌*◌, ◌/◌, ◌%◌, ◌≤◌, ◌<◌, ◌≡◌, ◌&&◌, Option, none, some, [], ◌∷◌, ◌++◌, arith, ◌==◌,
  if◌then◌else◌, Bytes, length, length-append,
}
use ip2socks.System.{Ip4, Env, Trace}
use ip2socks.Socks5.{request_ipv4, request_domain, heap_put}

-- A CONNECT or UDP ASSOCIATE request for an IPv4 address, as RFC 1928 lays it out.
pub record Request : Type 0 where
  pub cmd : ℕ
  pub addr : Ip4
  pub port : ℕ

-- What a server reads, an independent description of the format.
pub decode_request : Bytes → Option Request
decode_request (ver ∷ cmd ∷ rsv ∷ atyp ∷ a ∷ b ∷ c ∷ d ∷ hi ∷ lo ∷ []) =
    if ver == 5 && rsv == 0 && atyp == 1
    then some
        (record { cmd = cmd; addr = record { a = a; b = b; c = c; d = d }; port = hi * 256 + lo })
    else none
decode_request _ = none

-- A server reads from the request the command, the address and the port that it was made for, for
-- every port of 16 bits.
pub decode-request_ipv4 :
    (cmd : ℕ) (addr : Ip4) (port : ℕ)
    → port < 65536
    → decode_request (request_ipv4 cmd addr port)
      ≡ some (record { cmd = cmd; addr = addr; port = port })
unfolding decode_request request_ipv4
decode-request_ipv4 cmd addr port h =
    let exact : port / 256 % 256 * 256 + port % 256 ≡ port = omega arith in ground arith

heap_put_fits :
    {S : Type 0} (size : ℕ) (buffer bs : Bytes)
    → length buffer + length bs ≤ size
    → (s : S) → heap_put size buffer bs s ≡ some (buffer ++ bs, s)
unfolding heap_put
heap_put_fits size buffer bs h s = ground arith

heap_put_overflows :
    {S : Type 0} (size : ℕ) (buffer bs : Bytes)
    → size < length buffer + length bs
    → (s : S) → heap_put size buffer bs s ≡ none
unfolding heap_put
heap_put_overflows size buffer bs h s = ground arith

-- Putting together a request for a domain name writes past the end of its buffer, for every name,
-- port and command: the last copy takes eight bytes where two are left.
request_domain_overflows :
    (env : Env) (host port : Bytes) (cmd : ℕ) (t : Trace)
    → request_domain env host port cmd t ≡ none
unfolding request_domain
request_domain_overflows env host port cmd t =
    ground (arith, length-append (5 ∷ cmd ∷ 0 ∷ 3 ∷ (length host % 256) ∷ []) host)
