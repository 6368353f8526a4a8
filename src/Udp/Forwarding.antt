-- ===== src/Udp/Forwarding.antt =====
-- A DNS query whose domain a rule matches goes to the rule's server (src/udp_raw.cpp).
use ip2socks.Common.{
  ℕ, ◌≤◌, ◌<◌, ◌≡◌, ◌∙◌, true, false, Option, some, List, ◌∷◌, map, Bytes, codes, length, arith,
}
use ip2socks.System.{Env, Trace, SockAddr, dgram, opened, bound, sent_to, pbuf_freed}
use ip2socks.Rules.{Verdict}
use ip2socks.Rules.FirstMatch.{Rule, row, FirstMatch}
use ip2socks.Tcp.State.{Ev}
use ip2socks.Config.{Conf}
use ip2socks.Dns.{Parse, get_query_domain}
use ip2socks.Udp.{dns_relay, Exchange, E}
use ip2socks.Udp.Wire.{Datagram, undecided, decide}
use ip2socks.Udp.Query.{
  free_payload, start_exchange, send_datagram, query_with_udp, by_verdict, query_with_tcp,
  redirect_dns, udp_raw_recv,
}
use ip2socks.Udp.Blocking.{decided, named, received}

module _ (env : Env) (ev : Ev) (d : Datagram) (parse : Parse) (conf : Conf) (x : Exchange) where
  -- The calls before the query is sent, and the address that it is sent to.
  abbrev pub bound_trace : ℕ → Trace
  bound_trace fd = bound fd true ∷ opened dgram (some fd) ∷ x.trace

  abbrev pub dns_address : Bytes → SockAddr
  dns_address server = record { ip = env.inet_addr server; port = 53 }

  -- The exchange that waits for the answer.
  abbrev pub waiting : ℕ → ℕ → Bytes → Exchange
  waiting fd n server = record {
    es = some (record {
      socks_tcp_fd = 0;
      pcb = d.upcb;
      addr = dns_address server;
      addr_ip = env.inet_ntop d.addr;
      udp_port = d.port;
    });
    handler = dns_relay;
    io = ev.io_start false;
    io_fd = fd;
    timeout = ev.timer_start (record { active = false; repeat = 0 });
    trace = pbuf_freed ∷ sent_to fd d.payload (dns_address server) (some n) ∷ bound_trace fd;
  }

  queried :
      (fd n : ℕ) (server : Bytes)
      → env.socket x.trace dgram ≡ some fd
      → env.bind (opened dgram (some fd) ∷ x.trace) fd ≡ true
      → env.sendto (bound_trace fd) fd d.payload (dns_address server) ≡ some n
      → query_with_udp env ev d server x ≡ some (tt, waiting fd n server)
  unfolding query_with_udp send_datagram start_exchange free_payload
  queried fd n server s b t = ground arith

  matched_queried :
      (domain : Bytes) (w : Verdict) (otherwise : E (Unit {0}))
      → decide conf domain x ≡ some (w, x)
      → w.blocked ≡ false
      → w.matched ≡ true
      → by_verdict env ev d conf domain otherwise x ≡ query_with_udp env ev d w.dns_server x
  unfolding by_verdict
  matched_queried domain w otherwise e b m = ground arith

  pub redirected :
      (domain : Bytes)
      → length d.payload ≤ 1460
      → get_query_domain parse d.payload x ≡ some (some domain, x)
      → redirect_dns env ev d parse conf x
        ≡ by_verdict env ev d conf domain (query_with_tcp env ev d conf) x
  unfolding redirect_dns
  redirected domain fits e = ground arith

  -- In the mode `tcp`, a DNS query of at most 1460 bytes, for a domain of less than 256 bytes that
  -- the first rule that applies to it forwards, to port 53 whatever the setting `local_dns_port`
  -- is, is sent whole and unchanged to port 53 of the rule's server over a new socket, if that
  -- opens, is bound and sends; the query's `pbuf` is freed, and the exchange then waits for the
  -- answer with the query's pcb, sender and port.
  pub udp_raw_recv_forwarded :
      (rs : List Rule) (domain : Bytes) (qs : List (Option Bytes)) (w : Verdict) (fd n : ℕ)
      → conf.domains ≡ map row rs
      → FirstMatch domain undecided rs w
      → w.blocked ≡ false
      → w.matched ≡ true
      → conf.dns_mode ≡ some (codes "tcp")
      → d.remote_fake_port ≡ 53
      → length d.payload ≤ 1460
      → parse d.payload ≡ some (some domain ∷ qs)
      → length domain < 256
      → env.socket x.trace dgram ≡ some fd
      → env.bind (opened dgram (some fd) ∷ x.trace) fd ≡ true
      → env.sendto (bound_trace fd) fd d.payload (dns_address w.dns_server) ≡ some n
      → udp_raw_recv env ev d parse conf x ≡ some (tt, waiting fd n w.dns_server)
  udp_raw_recv_forwarded rs domain qs w fd n loaded first b m mode port fits asked short s bd t =
      received env ev d parse conf x mode port
      ∙ redirected domain fits (named env ev d parse conf x domain qs asked short)
      ∙ matched_queried domain w (query_with_tcp env ev d conf)
          (decided env ev d parse conf x rs domain w loaded first) b m
      ∙ queried fd n w.dns_server s bd t
