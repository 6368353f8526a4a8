-- ===== src/Udp/Formats.antt =====
-- What src/udp_raw.cpp puts on the wire, read by independent descriptions of the formats.
use ip2socks.Common.{
  ℕ, ◌+◌, ◌*◌, ◌/◌, ◌%◌, ◌<◌, ◌≡◌, ◌↔◌, ◌&&◌, Option, none, some, ◌∷◌, ◌++◌, Bytes, length,
  take_all, ◌==◌, if◌then◌else◌, arith,
}
use ip2socks.System.{Ip4}
use ip2socks.Udp.Wire.{Datagram, udp_header, tcp_query}

-- A datagram to a SOCKS5 server, as RFC 1928 lays it out for an IPv4 target.
pub decode_datagram : Bytes → Option (Ip4 × ℕ × Bytes)
decode_datagram (r ∷ s ∷ frag ∷ atyp ∷ a ∷ b ∷ c ∷ d ∷ hi ∷ lo ∷ data') =
    if r == 0 && s == 0 && frag == 0 && atyp == 1
    then some (record { a = a; b = b; c = c; d = d }, hi * 256 + lo, data')
    else none
decode_datagram _ = none

-- The SOCKS5 server reads from a datagram the address, the port of 16 bits and the payload that it
-- was made for.
pub decode-udp_header :
    (ip : Ip4) (port : ℕ) (payload : Bytes)
    → port < 65536
    → decode_datagram (udp_header ip port ++ payload) ≡ some (ip, port, payload)
unfolding decode_datagram udp_header
decode-udp_header ip port payload h =
    let exact : port / 256 % 256 * 256 + port % 256 ≡ port = omega arith in ground arith

-- A DNS message over TCP, behind its length in two bytes.
pub decode_message : Bytes → Option Bytes
decode_message (hi ∷ lo ∷ message) = if hi * 256 + lo == length message then some message else none
decode_message _ = none

framed_iff :
    (n : ℕ) (m : Bytes)
    → n ≡ length m
    → (decode_message (0 ∷ (n % 256) ∷ m) ≡ some m) ↔ (length m < 256)
unfolding decode_message
framed_iff n m whole = (λ e. ground arith, λ short. ground arith)

-- A query in one `pbuf` that is passed on over TCP has the length that its server reads, and so
-- arrives whole, exactly if it has less than 256 bytes.
pub decode-tcp_query_iff :
    (d : Datagram)
    → d.len ≡ length d.payload
    → (decode_message (tcp_query d) ≡ some d.payload) ↔ (length d.payload < 256)
unfolding tcp_query
decode-tcp_query_iff d whole =
    rw (take_all d.len d.payload (omega arith)) (framed_iff d.len d.payload whole)
