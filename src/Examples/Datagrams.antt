-- ===== src/Examples/Datagrams.antt =====
-- src/udp_raw.cpp on concrete datagrams.
use ip2socks.Common.{
  ◌<◌, ◌≡◌, ◌↔◌, refl, true, false, none, some, List, [], ◌∷◌, map, codes, arith, Option, Bytes,
  length,
}
use ip2socks.System.{Env, at_most, pbuf_freed}
use ip2socks.Tcp.State.{Timer}
use ip2socks.Rules.{Verdict}
use ip2socks.Rules.FirstMatch.{Rule, Kind, row, FirstMatch, here}
use ip2socks.Config.{Conf}
use ip2socks.Dns.{Parse}
use ip2socks.Udp.{UdpRawState, udp_socks_relay, tcp_dns, dns_relay, Exchange}
use ip2socks.Udp.Query.{udp_raw_recv}
use ip2socks.Rules.{match_dns_rule}
use ip2socks.Udp.Handling.{Spent}
use ip2socks.Udp.Handling.Queries.{IsReady}
use ip2socks.Udp.Handling.Paths.{udp_raw_recv-Spent}
use ip2socks.Udp.Wire.{Datagram, tcp_query, undecided}
use ip2socks.Udp.Formats.{decode_message, decode-tcp_query_iff}
use ip2socks.Udp.Blocking.{udp_raw_recv_blocked}
use ip2socks.Udp.Forwarding.{waiting, udp_raw_recv_forwarded}
use ip2socks.Tcp.Accepting.{closes}
use ip2socks.Udp.Replies.{callback, room, live, replies, IsOver, callback-IsOver}
use ip2socks.Examples.Setting.{target, open_env, quiet_ev, quiet_laws}
use ip2socks.Examples.Settings.{empty_conf}

abbrev es : UdpRawState
es = record {
  socks_tcp_fd = 4;
  pcb = 8;
  addr = record { ip = target; port = 1080 };
  addr_ip = codes "172.16.0.1";
  udp_port = 5000;
}

abbrev timer : Timer
timer = record { active = true; repeat = 0 }

callback-IsOver_example :
    (x : Exchange) × (callback open_env quiet_ev udp_socks_relay
        (live open_env quiet_laws es udp_socks_relay true 5 timer [])
      ≡ some (tt, x))
    × IsOver x
    × (closes x.trace ≡ 5 ∷ 4 ∷ [])
    × (replies x.trace ≡ (8, codes "hi", target, 5000) ∷ [])
unfolding at_most
callback-IsOver_example =
    callback-IsOver open_env quiet_laws (λ t n. refl) udp_socks_relay es true 5 timer []
      (omega arith)

-- A server that answers with one byte.
abbrev terse_env : Env
terse_env = record open_env { recv = λ t fd. some (7 ∷ []) }

terse : at_most (room tcp_dns) (terse_env.recv [] 5) ≡ some (7 ∷ [])
unfolding at_most
terse = refl

abbrev query : Datagram
query = record {
  upcb = 8;
  remote_fake_ip = target;
  remote_fake_port = 53;
  payload = codes "hi";
  len = 2;
  addr = target;
  port = 5000;
}

decode-tcp_query_iff_example : (decode_message (tcp_query query) ≡ some (codes "hi")) ↔ (2 < 256)
decode-tcp_query_iff_example = decode-tcp_query_iff query refl

abbrev blocking : List Rule
blocking = Rule.block Kind.suffix (codes ".org") ∷ []

abbrev conf : Conf
conf = record empty_conf { dns_mode = some (codes "tcp"); domains = map row blocking }

-- Every query asks for one domain.
abbrev parse : Parse
parse payload = some (some (codes "a.org") ∷ [])

abbrev before : Exchange
before = record {
  es = none;
  handler = dns_relay;
  io = false;
  io_fd = 0;
  timeout = record { active = false; repeat = 0 };
  trace = [];
}

blocks : FirstMatch (codes "a.org") undecided blocking (record undecided { blocked = true })
blocks = here (codes "a", refl)

udp_raw_recv_blocked_example :
    udp_raw_recv open_env quiet_ev query parse conf before
    ≡ some (tt, record before { trace = pbuf_freed ∷ [] })
udp_raw_recv_blocked_example =
    udp_raw_recv_blocked open_env quiet_ev query parse conf before blocking (codes "a.org") []
      (record undecided { blocked = true }) refl blocks refl refl refl (omega arith) refl
      (omega arith)

abbrev forwarding : List Rule
forwarding = Rule.server (codes "a.org") (codes "1.1.1.1") ∷ []

abbrev forwarding_conf : Conf
forwarding_conf = record empty_conf { dns_mode = some (codes "tcp"); domains = map row forwarding }

abbrev chosen : Verdict
chosen = record undecided { matched = true; dns_server = codes "1.1.1.1" }

udp_raw_recv_forwarded_example :
    udp_raw_recv open_env quiet_ev query parse forwarding_conf before
    ≡ some (tt, waiting open_env quiet_ev query parse forwarding_conf before 3 2 (codes "1.1.1.1"))
unfolding undecided
udp_raw_recv_forwarded_example =
    udp_raw_recv_forwarded open_env quiet_ev query parse forwarding_conf before forwarding
      (codes "a.org") [] chosen 3 2 refl (here refl) refl refl refl refl (omega arith) refl
      (omega arith) refl refl refl

-- A configuration that sends every DNS query to the remote server over TCP.
abbrev ready_conf : Conf
ready_conf = record empty_conf {
  dns_mode = some (codes "tcp");
  local_dns_port = some (codes "53");
  relay_none_dns_packet_with_udp = some (codes "true");
  remote_dns_server = some (codes "8.8.8.8");
  remote_dns_port = some (codes "53");
  socks_server = some (codes "10.0.0.9");
  socks_port = some (codes "1080");
}

parse-short :
    (name : Bytes) (qs : List (Option Bytes))
    → parse query.payload ≡ some (some name ∷ qs)
    → length name < 256
parse-short name qs e = let same : name ≡ codes "a.org" = cc in rw same (omega arith)

ready_conf-IsReady : IsReady parse ready_conf query
unfolding match_dns_rule
ready_conf-IsReady = record {
  mode = (_, refl);
  local_port = (_, refl);
  relayed = (_, refl);
  server = (_, refl);
  server_port = (_, refl);
  socks_host = (_, refl);
  socks_port = (_, refl);
  decides = λ domain. (undecided, refl);
  short = parse-short;
  small = omega arith;
}

udp_raw_recv-Spent_example :
    (y : Exchange) × (udp_raw_recv open_env quiet_ev query parse ready_conf before ≡ some (tt, y))
    × Spent [] y.trace
udp_raw_recv-Spent_example =
    udp_raw_recv-Spent open_env quiet_ev query parse ready_conf before ready_conf-IsReady
