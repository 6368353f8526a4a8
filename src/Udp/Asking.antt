-- ===== src/Udp/Asking.antt =====
-- A DNS query that no rule decides goes to the remote server over TCP (src/udp_raw.cpp).
use mathlib.Core.Path.{subst}
use ip2socks.Common.{
  ℕ, ◌%◌, ◌≤◌, ◌<◌, ◌≡◌, ◌⊎◌, sym, inl, inr, refl, ap, ◌∙◌, Bool, true, false, Option, none, some,
  List, ◌∷◌, map, Bytes, codes, length, arith, Option-cases, Bool-cases,
}
use ip2socks.Numbers.{atoi, decimal, atoi-decimal}
use ip2socks.System.{Ip4, Env, Trace, sent}
use ip2socks.Socks5.{
  fill, method_request, method_chosen, version_ok, request_ipv4, socks5_auth, socks5_connect,
}
use ip2socks.Socks5.Auth.{
  choice, reply, replied, Accepted, auth_chosen, auth_refused, auth_failed, socks5_auth-true_iff,
}
use ip2socks.Rules.{Verdict}
use ip2socks.Rules.FirstMatch.{Rule, row, FirstMatch}
use ip2socks.Tcp.State.{Ev}
use ip2socks.Config.{Conf}
use ip2socks.Dns.{Parse}
use ip2socks.Udp.{tcp_dns, Exchange, E}
use ip2socks.Udp.Wire.{Datagram, text, tcp_query, undecided, decide}
use ip2socks.Udp.Query.{connect_socks, query_with_tcp, start_exchange, by_verdict, udp_raw_recv}
use ip2socks.Udp.Blocking.{decided, named, received}
use ip2socks.Udp.Forwarding.{redirected}
use ip2socks.Udp.Connecting.{connect-Quiet, kept, connected}

returned :
    (r : Option Bytes) (v : Trace) (f : Bytes → Bool)
    → (g : Bool) × (u : Trace) × ◌≡◌ {A = Option (Bool × Trace)}
        (elim r [ none ↦ some (false, v) | some cs ↦ some (f cs, v) ])
        (some (g, u))
returned none v f = (_, _, refl)
returned (some cs) v f = (_, _, refl)

module _ (env : Env) (ev : Ev) (d : Datagram) (conf : Conf) where
  -- With an address, `socks5_auth` returns.
  auth_returns :
      (fd : ℕ) (host port : Bytes) (ip : Ip4) (t : Trace)
      → env.inet_aton host ≡ some ip
      → (g : Bool) × (u : Trace) × (socks5_auth env fd host port 1 1 t ≡ some (g, u))
  auth_returns fd host port ip t known = elim (Option-cases (choice env fd t)) [
    | inl c ↦ (_, _, auth_failed env fd host port 1 t known c)
    | inr (bs, c) ↦ elim (Bool-cases (method_chosen (fill method_request bs))) [
      | inr m ↦ (_, _, auth_refused env fd host port 1 t known bs c m)
      | inl m ↦
          let req = request_ipv4 1 ip (atoi port) in
          let (g, u, e) =
            returned (reply env fd t req) (replied env fd t req)
              (λ cs. version_ok (fill (fill method_request bs) cs)) in
          (g, u, auth_chosen env fd host port 1 t known bs c m ∙ e)
    ]
  ]

  module _ (host server_port server : Bytes) (ip : Ip4) where
    -- The exchange that waits for the answer over the SOCKS5 connection.
    abbrev pub asking : ℕ → Trace → Exchange
    asking fd u = record {
      es = some (record {
        socks_tcp_fd = fd;
        pcb = d.upcb;
        addr = record { ip = env.inet_addr host; port = atoi server_port % 65536 };
        addr_ip = env.inet_ntop d.addr;
        udp_port = d.port;
      });
      handler = tcp_dns;
      io = ev.io_start false;
      io_fd = fd;
      timeout = ev.timer_start (record { active = false; repeat = 0 });
      trace = u;
    }

    abbrev pub request : Bytes
    request = request_ipv4 1 ip d.remote_fake_port

    -- The answers of the SOCKS5 server were not accepted, and no exchange has begun.
    abbrev pub NotAsked : ℕ → Trace → Exchange → Exchange → Type 0
    NotAsked fd u x x' =
        (¬ Accepted env fd u request)
        × ((v : Trace) × (socks5_auth env fd server (decimal d.remote_fake_port) 1 1 u
              ≡ some (false, v))
            × (x' ≡ record x { trace = v }))

    -- The answers of the SOCKS5 server, to the request for the remote DNS server, were accepted,
    -- the query was then sent over the connection, and the exchange waits for the answer.
    abbrev pub Asked : ℕ → Trace → Exchange → Type 0
    Asked fd u x' =
        Accepted env fd u request
        × (let v = replied env fd u request in
            x' ≡ asking fd (sent fd (tcp_query d) (env.send v fd (tcp_query d)) ∷ v))

    -- What follows `socks5_connect`: without a descriptor nothing.
    abbrev pub Handled : Exchange → Option ℕ → Trace → Exchange → Type 0
    Handled x none u x' = x' ≡ record x { trace = u }
    Handled x (some fd) u x' = NotAsked fd u x x' ⊎ Asked fd u x'

    module _ (a : conf.socks_server ≡ some host) (b : conf.socks_port ≡ some server_port)
        (c : conf.remote_dns_server ≡ some server) (known : env.inet_aton server ≡ some ip)
        (port16 : d.remote_fake_port < 65536) where
      unconnected :
          (x : Exchange) (u : Trace)
          → connect_socks env ev d conf x ≡ some (none, record x { trace = u })
          → query_with_tcp env ev d conf x ≡ some (tt, record x { trace = u })
      unfolding query_with_tcp text
      unconnected x u e = ground arith

      module _ (x : Exchange) (fd : ℕ) (u v : Trace)
          (e : connect_socks env ev d conf x ≡ some (some fd, record x { trace = u })) where
        denied :
            socks5_auth env fd server (decimal d.remote_fake_port) 1 1 u ≡ some (false, v)
            → query_with_tcp env ev d conf x ≡ some (tt, record x { trace = v })
        unfolding query_with_tcp text
        denied r = ground arith

        granted :
            socks5_auth env fd server (decimal d.remote_fake_port) 1 1 u ≡ some (true, v)
            → query_with_tcp env ev d conf x
              ≡ some (tt, asking fd (sent fd (tcp_query d) (env.send v fd (tcp_query d)) ∷ v))
        unfolding query_with_tcp text start_exchange
        granted r = ground arith

        unaccepted :
            socks5_auth env fd server (decimal d.remote_fake_port) 1 1 u ≡ some (false, v)
            → ¬ Accepted env fd u request
        unaccepted r ok =
            let same = atoi-decimal d.remote_fake_port port16 in
            let ok' = subst (λ k. Accepted env fd u (request_ipv4 1 ip k)) (sym same) ok in
            let r' =
              (socks5_auth-true_iff env fd server (decimal d.remote_fake_port) 1 u known _).1
                (refl, ok') in
            cc (r, r')

        by_auth :
            (g : Bool)
            → socks5_auth env fd server (decimal d.remote_fake_port) 1 1 u ≡ some (g, v)
            → (x' : Exchange) × (query_with_tcp env ev d conf x ≡ some (tt, x'))
              × (NotAsked fd u x x' ⊎ Asked fd u x')
        by_auth false r = (_, denied r, inl (unaccepted r, (v, r, refl)))
        by_auth true r =
            let same = atoi-decimal d.remote_fake_port port16 in
            let (out, ok) =
              (socks5_auth-true_iff env fd server (decimal d.remote_fake_port) 1 u known v).0 r in
            (
              _,
              granted r,
              inr (
                subst (λ k. Accepted env fd u (request_ipv4 1 ip k)) same ok,
                ap (λ w. asking fd (sent fd (tcp_query d) (env.send w fd (tcp_query d)) ∷ w))
                    (out ∙ ap (λ k. replied env fd u (request_ipv4 1 ip k)) same),
              ),
            )

      by_socket :
          (fd? : Option ℕ) (x : Exchange) (u : Trace)
          → connect_socks env ev d conf x ≡ some (fd?, record x { trace = u })
          → (x' : Exchange) × (query_with_tcp env ev d conf x ≡ some (tt, x')) × Handled x fd? u x'
      by_socket none x u e = (_, unconnected x u e, refl)
      by_socket (some fd) x u e =
          let (g, v, r) = auth_returns fd server (decimal d.remote_fake_port) ip u known in
          by_auth x fd u v e g r

      -- The query is asked, or no exchange begins.
      asked :
          (x : Exchange)
          → (x' : Exchange) × (query_with_tcp env ev d conf x ≡ some (tt, x'))
            × ((fd? : Option ℕ) × (u : Trace) × (socks5_connect env host server_port x.trace
                  ≡ some (fd?, u))
                × Handled x (kept env ev d conf fd?) u x')
      asked x =
          let (fd?, u, e, same) = connect-Quiet env host server_port x.trace in
          let (x', ran, how) =
            by_socket (kept env ev d conf fd?) x u
              (connected env ev d conf host server_port fd? x u a b e) in
          (x', ran, (fd?, u, e, how))

  otherwise_run :
      (domain : Bytes) (w : Verdict) (otherwise : E (Unit {0})) (x : Exchange)
      → decide conf domain x ≡ some (w, x)
      → w.blocked ≡ false
      → w.matched ≡ false
      → by_verdict env ev d conf domain otherwise x ≡ otherwise x
  unfolding by_verdict
  otherwise_run domain w otherwise x e b m = ground arith

module _ (env : Env) (ev : Ev) (d : Datagram) (parse : Parse) (conf : Conf) (x : Exchange) where
  -- In the mode `tcp`, a DNS query of at most 1460 bytes, for a domain of less than 256 bytes that
  -- the rules neither forward nor block, to port 53 whatever the setting `local_dns_port` is, is
  -- handled without a fault, if the configuration names the SOCKS5 server, its port and the remote
  -- server, and `inet_aton` reads the remote one's address. If `socks5_connect` gives no positive
  -- descriptor, nothing else is done. Else, if `socks5_auth` does not accept the two answers of the
  -- SOCKS5 server, the second one to the request to connect to port 53 of the remote server, no
  -- exchange begins; if it does, the first `pbuf` of the query was then sent over that connection
  -- behind its length, and the exchange waits there for the answer.
  pub udp_raw_recv_asked :
      (rs : List Rule) (domain : Bytes) (qs : List (Option Bytes)) (w : Verdict)
      (host server_port server : Bytes) (ip : Ip4)
      → conf.domains ≡ map row rs
      → FirstMatch domain undecided rs w
      → w.blocked ≡ false
      → w.matched ≡ false
      → conf.dns_mode ≡ some (codes "tcp")
      → d.remote_fake_port ≡ 53
      → length d.payload ≤ 1460
      → parse d.payload ≡ some (some domain ∷ qs)
      → length domain < 256
      → conf.socks_server ≡ some host
      → conf.socks_port ≡ some server_port
      → conf.remote_dns_server ≡ some server
      → env.inet_aton server ≡ some ip
      → (x' : Exchange) × (udp_raw_recv env ev d parse conf x ≡ some (tt, x'))
        × ((fd? : Option ℕ) × (u : Trace) × (socks5_connect env host server_port x.trace
              ≡ some (fd?, u))
            × Handled env ev d conf host server_port server ip x (kept env ev d conf fd?) u x')
  udp_raw_recv_asked rs domain qs w host server_port server ip loaded first bl m mode port fits asks
        short a b c known =
      let (x', e, how) =
        asked env ev d conf host server_port server ip a b c known (omega (arith, port)) x in
      (
        x',
        received env ev d parse conf x mode port
            ∙ redirected env ev d parse conf x domain fits
                (named env ev d parse conf x domain qs asks short)
            ∙ otherwise_run env ev d conf domain w (query_with_tcp env ev d conf) x
                (decided env ev d parse conf x rs domain w loaded first) bl m
            ∙ e,
        how,
      )
