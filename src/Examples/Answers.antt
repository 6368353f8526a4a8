-- ===== src/Examples/Answers.antt =====
-- src/udp_raw.cpp on answers to concrete queries.
use ip2socks.Common.{
  ℕ, Option, get_or, ap, ◌≤◌, ◌≡◌, ◌⊎◌, refl, true, false, none, some, List, [], ◌∷◌, ◌++◌, map,
  codes, arith,
}
use ip2socks.System.{◌>>◌, at_most, Trace}
use ip2socks.Rules.{Verdict}
use ip2socks.Rules.FirstMatch.{Rule, row, FirstMatch, here, later, unmatched}
use ip2socks.Config.{Conf}
use ip2socks.Dns.{Parse}
use ip2socks.Udp.{UdpRawState, tcp_dns, dns_relay, Exchange}
use ip2socks.Udp.Query.{udp_raw_recv, relay_datagram}
use ip2socks.Udp.Associating.{Target}
use ip2socks.Udp.Passing
use ip2socks.Udp.Passing.{relay_datagram-Passed}
use ip2socks.Udp.Wire.{Datagram, undecided}
use ip2socks.Udp.Events.{Firing, answer_readable, query_timeout, deliver, run}
use ip2socks.Udp.Lifetime.{AtMostOne, ShutOnce, run-AtMostOne}
use ip2socks.Udp.Asking
use ip2socks.Udp.Asking.{udp_raw_recv_asked}
use ip2socks.Udp.Connecting.{kept}
use ip2socks.Socks5.{socks5_connect}
use ip2socks.Udp.Answering.{query_answered}
use ip2socks.Tcp.Accepting.{closes}
use ip2socks.Udp.Replies.{live, replies, IsOver}
use ip2socks.Tcp.State.{Timer}
use ip2socks.Examples.Setting.{target, open_env, answer, quiet_ev, quiet_laws}
use ip2socks.Examples.Settings.{empty_conf}

abbrev query : Datagram
query = record {
  upcb = 8;
  remote_fake_ip = target;
  remote_fake_port = 53;
  payload = codes "hi";
  len = 2;
  addr = target;
  port = 5000;
}

abbrev parse : Parse
parse payload = some (some (codes "a.org") ∷ [])

abbrev nothing_yet : Exchange
nothing_yet = record {
  es = none;
  handler = dns_relay;
  io = false;
  io_fd = 0;
  timeout = record { active = false; repeat = 0 };
  trace = [];
}

abbrev rules : List Rule
rules = Rule.server (codes "a.org") (codes "1.1.1.1") ∷ []

abbrev conf : Conf
conf = record empty_conf { dns_mode = some (codes "tcp"); domains = map row rules }

abbrev chosen : Verdict
chosen = record undecided { matched = true; dns_server = codes "1.1.1.1" }

query_answered_example :
    (z : Exchange) × ((udp_raw_recv open_env quiet_ev query parse conf
          >> deliver open_env quiet_ev answer_readable)
        nothing_yet
      ≡ some (tt, z))
    × IsOver z
    × (closes z.trace ≡ 3 ∷ [])
    × (replies z.trace ≡ (8, answer, target, 5000) ∷ [])
unfolding undecided
query_answered_example =
    query_answered open_env quiet_laws query parse conf nothing_yet rules (codes "a.org") [] chosen
      3 2 5 (0 ∷ 0 ∷ 1 ∷ 0 ∷ 0 ∷ 0 ∷ 0 ∷ 0 ∷ 0 ∷ b'h' ∷ b'i' ∷ []) refl (here refl) refl refl refl
      refl (omega arith) refl (omega arith) refl refl refl refl (omega arith) refl (λ t n. refl)

abbrev es : UdpRawState
es = record {
  socks_tcp_fd = 4;
  pcb = 8;
  addr = record { ip = target; port = 1080 };
  addr_ip = codes "172.16.0.1";
  udp_port = 5000;
}

abbrev timer : Timer
timer = record { active = true; repeat = 0 }

abbrev firings : List Firing
firings = answer_readable ∷ query_timeout ∷ []

run-AtMostOne_example :
    let x = live open_env quiet_laws es tcp_dns true 5 timer [] in
    (x' : Exchange) × (run open_env quiet_ev firings x ≡ some (tt, x'))
    × ((x' ≡ x)
        ⊎ (((ds : _) × (closes x'.trace ≡ ds ++ []) × ShutOnce es tcp_dns 5 ds)
            × ((rs : _) × (replies x'.trace ≡ rs ++ []) × AtMostOne open_env es rs)
            × IsOver x'
            × (run open_env quiet_ev firings x' ≡ some (tt, x'))))
unfolding at_most
run-AtMostOne_example =
    run-AtMostOne open_env quiet_laws (λ t n. refl) es tcp_dns 5 (λ t. omega arith) firings firings
      true timer []

abbrev socks_conf : Conf
socks_conf = record empty_conf {
  socks_server = some (codes "10.0.0.9");
  socks_port = some (codes "1080");
}

-- The target of the query, read back from its text.
known : Target open_env quiet_ev query socks_conf false target 53
known = (refl, refl)

two_bytes : 2 ≤ 1504
two_bytes = omega arith

relay_datagram-Passed_example :
    (fd? : Option ℕ) × (u : Trace) × Passing.Asked open_env quiet_ev query socks_conf false target
      53 known two_bytes
      (codes "10.0.0.9")
      (codes "1080")
      nothing_yet
      fd?
      u
    × ((x' : Exchange) × (relay_datagram open_env quiet_ev query socks_conf false nothing_yet
          ≡ some (tt, x'))
        × Passing.Handled open_env quiet_ev query socks_conf false target 53 known two_bytes
            (codes "10.0.0.9")
            (codes "1080")
            nothing_yet
            (kept open_env quiet_ev query socks_conf fd?)
            u
            x')
relay_datagram-Passed_example =
    relay_datagram-Passed open_env quiet_ev query socks_conf false target 53 known two_bytes
      (codes "10.0.0.9") (codes "1080") nothing_yet refl refl

abbrev asking_conf : Conf
asking_conf = record conf {
  socks_server = some (codes "10.0.0.9");
  socks_port = some (codes "1080");
  remote_dns_server = some (codes "8.8.8.8");
}

-- Every query asks for a domain that no rule is about.
abbrev other_parse : Parse
other_parse payload = some (some (codes "b.org") ∷ [])

no_rule : FirstMatch (codes "b.org") undecided rules undecided
no_rule = later (λ e. omega (arith, ap (λ s. get_or s 0 0) e)) unmatched

udp_raw_recv_asked_example :
    (x' : Exchange) × (udp_raw_recv open_env quiet_ev query other_parse asking_conf nothing_yet
      ≡ some (tt, x'))
    × ((fd? : Option ℕ) × (u : Trace) × (socks5_connect open_env
            (codes "10.0.0.9")
            (codes "1080")
            nothing_yet.trace
          ≡ some (fd?, u))
        × Asking.Handled open_env quiet_ev query asking_conf
            (codes "10.0.0.9")
            (codes "1080")
            (codes "8.8.8.8")
            target
            nothing_yet
            (kept open_env quiet_ev query asking_conf fd?)
            u
            x')
unfolding undecided
udp_raw_recv_asked_example =
    udp_raw_recv_asked open_env quiet_ev query other_parse asking_conf nothing_yet rules
      (codes "b.org") [] undecided (codes "10.0.0.9") (codes "1080") (codes "8.8.8.8") target refl
      no_rule refl refl refl refl (omega arith) refl (omega arith) refl refl refl refl
