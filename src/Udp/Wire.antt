-- ===== src/Udp/Wire.antt =====
-- What `udp_raw_recv` of src/udp_raw.cpp takes in, and the messages that it puts together.
use ip2socks.Common.{
  ℕ, ◌+◌, ◌*◌, ◌%◌, false, Option, none, some, ◌∷◌, ◌++◌, Bytes, codes, take, get_or,
}
use ip2socks.System.{Ip4, ip_bytes, SockAddr, Env, Cmd, Pcb, pure, fault}
use ip2socks.Util.{ok, err}
use ip2socks.Rules.{Verdict, match_dns_rule}
use ip2socks.Socks5.{port_bytes}
use ip2socks.Config.{Conf}
use ip2socks.Udp.{E}

-- A datagram: its pcb with the destination that it was sent to, the bytes of its `pbuf` chain, how
-- many of them the first `pbuf` has, and its sender.
pub record Datagram : Type 0 where
  pub upcb : Pcb
  pub remote_fake_ip : Ip4
  pub remote_fake_port : ℕ
  pub payload : Bytes
  pub len : ℕ
  pub addr : Ip4
  pub port : ℕ

-- A `char *` that is used: NULL is a fault.
unfoldable pub text : {S : Type 0} → Option Bytes → Cmd S Bytes
text none = fault
text (some s) = pure s

-- The verdict before any rule.
unfoldable pub undecided : Verdict
undecided = record { matched = false; dns_server = codes "114.114.114.114"; blocked = false }

-- An exception of `match_dns_rule` ends the program.
unfoldable pub decide : Conf → Bytes → E Verdict
decide conf domain = elim (match_dns_rule conf.domains domain undecided) [
  | ok v ↦ pure v
  | err e ↦ fault
]

-- A DNS query over TCP: the low byte of its length behind a zero, and its first `pbuf`.
unfoldable pub tcp_query : Datagram → Bytes
tcp_query d = 0 ∷ (d.len % 256) ∷ take d.len d.payload

-- The header of a datagram to the SOCKS5 server, for an IPv4 target.
unfoldable pub udp_header : Ip4 → ℕ → Bytes
udp_header ip port = 0 ∷ 0 ∷ 0 ∷ 1 ∷ (ip_bytes ip ++ port_bytes port)

-- The request for a UDP association.
unfoldable pub associate_request : Ip4 → ℕ → Bytes
associate_request ip port = 5 ∷ 3 ∷ 0 ∷ 1 ∷ (ip_bytes ip ++ port_bytes port)

-- Where the reply says that the SOCKS5 server takes datagrams.
unfoldable pub relay_address : Env → Bytes → SockAddr
relay_address env buff = record {
  ip = env.inet_addr (
      env.inet_ntop (record {
        a = get_or buff 4 0;
        b = get_or buff 5 0;
        c = get_or buff 6 0;
        d = get_or buff 7 0;
      }));
  port = get_or buff 8 0 * 256 + get_or buff 9 0;
}
