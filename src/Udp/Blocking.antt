-- ===== src/Udp/Blocking.antt =====
-- What the rules of the configuration do to DNS queries (src/udp_raw.cpp).
use ip2socks.Common.{
  ◌≤◌, ◌<◌, ◌≡◌, ◌∙◌, ◌==◌, true, false, Option, none, some, List, ◌∷◌, map, Bytes, codes, length,
  arith,
}
use ip2socks.System.{Env, pbuf_freed}
use ip2socks.Util.{ok}
use ip2socks.Rules.{Verdict, match_dns_rule}
use ip2socks.Rules.FirstMatch.{Rule, row, FirstMatch, match_dns_rule_iff}
use ip2socks.Tcp.State.{Ev}
use ip2socks.Tcp.Upstream.{tcp_wnd}
use ip2socks.Config.{Conf}
use ip2socks.Dns.{Parse, get_query_domain, hostname_from_question}
use ip2socks.Udp.{Exchange}
use ip2socks.Udp.Query.{
  free_payload, by_verdict, query_with_tcp, redirect_dns, is_udp_dns, relay_other, udp_raw_recv,
}
use ip2socks.Udp.Wire.{Datagram, undecided, decide, text}

module _ (env : Env) (ev : Ev) (d : Datagram) (parse : Parse) (conf : Conf) (x : Exchange) where
  pub decided :
      (rs : List Rule) (domain : Bytes) (w : Verdict)
      → conf.domains ≡ map row rs
      → FirstMatch domain undecided rs w
      → decide conf domain x ≡ some (w, x)
  unfolding decide
  decided rs domain w loaded first =
      let e : match_dns_rule conf.domains domain undecided ≡ ok w =
        rw loaded ((match_dns_rule_iff rs domain undecided w).1 first) in
      ground arith

  blocked_freed :
      (domain : Bytes) (w : Verdict) (otherwise : _)
      → decide conf domain x ≡ some (w, x)
      → w.blocked ≡ true
      → by_verdict env ev d conf domain otherwise x
        ≡ some (tt, record x { trace = pbuf_freed ∷ x.trace })
  unfolding by_verdict free_payload
  blocked_freed domain w otherwise e b = ground arith

  pub named :
      (domain : Bytes) (qs : List (Option Bytes))
      → parse d.payload ≡ some (some domain ∷ qs)
      → length domain < 256
      → get_query_domain parse d.payload x ≡ some (some domain, x)
  unfolding get_query_domain hostname_from_question
  named domain qs e short = ground arith

  redirected :
      (domain : Bytes)
      → length d.payload ≤ 1460
      → get_query_domain parse d.payload x ≡ some (some domain, x)
      → by_verdict env ev d conf domain (query_with_tcp env ev d conf) x
        ≡ some (tt, record x { trace = pbuf_freed ∷ x.trace })
      → redirect_dns env ev d parse conf x ≡ some (tt, record x { trace = pbuf_freed ∷ x.trace })
  unfolding redirect_dns
  redirected domain fits e b = ground arith

  pub received :
      conf.dns_mode ≡ some (codes "tcp")
      → d.remote_fake_port ≡ 53
      → udp_raw_recv env ev d parse conf x ≡ redirect_dns env ev d parse conf x
  unfolding udp_raw_recv text
  received mode port = ground arith

  -- In the mode `tcp`, a DNS query of at most 1460 bytes, for a domain of less than 256 bytes, is
  -- dropped if the first rule that applies to the domain blocks it, with port 53 whatever the
  -- setting `local_dns_port` is: nothing is sent, no exchange begins, and the query's `pbuf` is
  -- freed.
  pub udp_raw_recv_blocked :
      (rs : List Rule) (domain : Bytes) (qs : List (Option Bytes)) (w : Verdict)
      → conf.domains ≡ map row rs
      → FirstMatch domain undecided rs w
      → w.blocked ≡ true
      → conf.dns_mode ≡ some (codes "tcp")
      → d.remote_fake_port ≡ 53
      → length d.payload ≤ 1460
      → parse d.payload ≡ some (some domain ∷ qs)
      → length domain < 256
      → udp_raw_recv env ev d parse conf x ≡ some (tt, record x { trace = pbuf_freed ∷ x.trace })
  udp_raw_recv_blocked rs domain qs w loaded first b mode port fits asked short =
      received mode port
      ∙ redirected domain fits (named domain qs asked short) (
          blocked_freed domain w (query_with_tcp env ev d conf) (decided rs domain w loaded first)
            b)

  -- In the mode `tcp`, a datagram of at most `TCP_WND` bytes to another port is passed on as it is,
  -- even if `local_dns_port` names that port.
  other_port :
      conf.dns_mode ≡ some (codes "tcp")
      → (d.remote_fake_port == 53) ≡ false
      → length d.payload ≤ tcp_wnd
      → udp_raw_recv env ev d parse conf x ≡ relay_other env ev d conf x
  unfolding udp_raw_recv text is_udp_dns
  other_port mode port fits = ground arith

  -- In the mode `tcp`, a DNS query of more than 1460 bytes is copied past the end of its buffer.
  pub udp_raw_recv_overflows :
      conf.dns_mode ≡ some (codes "tcp")
      → d.remote_fake_port ≡ 53
      → 1460 < length d.payload
      → udp_raw_recv env ev d parse conf x ≡ none
  unfolding redirect_dns
  udp_raw_recv_overflows mode port long = rw (received mode port) (ground arith)
