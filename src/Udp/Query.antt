-- ===== src/Udp/Query.antt =====
-- `udp_raw_recv` of src/udp_raw.cpp: a datagram that reaches the stack is answered by a DNS server,
-- or passed on through the SOCKS5 server.
use ip2socks.Common.{
  ℕ, ◌+◌, ◌%◌, Bool, true, false, ◌&&◌, Option, none, some, ◌++◌, Bytes, codes, bytes_eq, length,
  ltb, ◌==◌, if◌then◌else◌,
}
use ip2socks.Numbers.{atoi, decimal}
use ip2socks.System.{
  Ip4, ip_bytes, SockAddr, dgram, Trace, Env, Cmd, Pcb, pure, fault, ◌>>=◌, ◌>>◌, record_event,
  pbuf_freed,
}
use ip2socks.System
use ip2socks.Socks5.{
  fill, method_request, method_chosen, version_ok, aton_fresh, socks5_connect, socks5_auth,
}
use ip2socks.Tcp.State.{Ev}
use ip2socks.Tcp.Upstream.{tcp_wnd}
use ip2socks.Tcp.Downstream.{buffer_size}
use ip2socks.Config.{Conf}
use ip2socks.Dns.{Parse, get_query_domain}
use ip2socks.Udp.{Handler, udp_socks_relay, tcp_dns, dns_relay, E, sys, udp_buffer_size}
use ip2socks.Udp.Wire.{
  Datagram, text, decide, tcp_query, udp_header, associate_request, relay_address,
}

module _ (env : Env) (ev : Ev) (d : Datagram) where
  unfoldable pub free_payload : E (Unit {0})
  free_payload = sys (record_event pbuf_freed)

  -- `malloc` of `es` and its fields, its timer, and the watcher of `fd`.
  unfoldable pub start_exchange : Handler → ℕ → ℕ → SockAddr → E (Unit {0})
  start_exchange handler fd socks_tcp_fd addr x = some (
    tt,
    record {
      es = some (record {
        socks_tcp_fd = socks_tcp_fd;
        pcb = d.upcb;
        addr = addr;
        addr_ip = env.inet_ntop d.addr;
        udp_port = d.port;
      });
      handler = handler;
      io = ev.io_start false;
      io_fd = fd;
      timeout = ev.timer_start (record { active = false; repeat = 0 });
      trace = x.trace;
    },
  )

  -- A new datagram socket sends bytes; `none` if it could not. `bind` of a socket that could not be
  -- opened fails.
  unfoldable pub send_datagram : Bytes → SockAddr → E (Option ℕ)
  send_datagram bs addr = do
    fd? ← sys (System.socket env dgram)
    elim fd? [
      | none ↦ pure none
      | some fd ↦ do
        done ← sys (System.bind env fd)
        if done
            then (do
              nread ← sys (System.sendto env fd bs addr)
              elim nread [ none ↦ pure none | some _ ↦ pure (some fd) ])
            else pure none
    ]

  -- A matched DNS query goes to the rule's server.
  unfoldable pub query_with_udp : Bytes → E (Unit {0})
  query_with_udp dns_server = do
    let dns_addr : SockAddr = record { ip = env.inet_addr dns_server; port = 53 }
    fd? ← send_datagram d.payload dns_addr
    elim fd? [ none ↦ pure tt | some fd ↦ do start_exchange dns_relay fd 0 dns_addr; free_payload ]

  -- `socks5_connect` with the test of its result.
  unfoldable pub connect_socks : Conf → E (Option ℕ)
  connect_socks conf = do
    host ← text conf.socks_server
    port ← text conf.socks_port
    fd? ← sys (socks5_connect env host port)
    elim fd? [ none ↦ pure none | some fd ↦ if ltb fd 1 then pure none else pure (some fd) ]

  -- A DNS query goes to the remote server over TCP, through the SOCKS5 server.
  unfoldable pub query_with_tcp : Conf → E (Unit {0})
  query_with_tcp conf = do
    server ← text conf.remote_dns_server
    fd? ← connect_socks conf
    elim fd? [
      | none ↦ pure tt
      | some fd ↦ do
        granted ← sys (socks5_auth env fd server (decimal d.remote_fake_port) 1 1)
        if granted
            then (do
              _ ← sys (System.send env fd (tcp_query d))
              host ← text conf.socks_server
              port ← text conf.socks_port
              start_exchange tcp_dns fd fd
                  (record { ip = env.inet_addr host; port = atoi port % 65536 }))
            else pure tt
    ]

  -- By the verdict on a domain, where `otherwise` answers a query that no rule decides.
  unfoldable pub by_verdict : Conf → Bytes → E (Unit {0}) → E (Unit {0})
  by_verdict conf domain otherwise = do
    v ← decide conf domain
    if v.blocked then free_payload else if v.matched then query_with_udp v.dns_server else otherwise

  -- A DNS query that is redirected to TCP; it is copied into 1460 bytes.
  unfoldable pub redirect_dns : Parse → Conf → E (Unit {0})
  redirect_dns parse conf = if ltb udp_buffer_size (length d.payload) then fault else (do
    domain? ← get_query_domain parse d.payload
    elim domain? [ none ↦ pure tt | some domain ↦ by_verdict conf domain (query_with_tcp conf) ])

  -- The target that a datagram is passed on to: the remote DNS server, or where it was sent.
  unfoldable pub target_of : Conf → Bool → E (Ip4 × ℕ)
  target_of conf true = do
    server ← text conf.remote_dns_server
    port ← text conf.remote_dns_port
    ip ← sys (aton_fresh env server)
    pure (ip, atoi port)
  target_of conf false = do
    ip ← sys (aton_fresh env (env.inet_ntop d.remote_fake_ip))
    pure (ip, d.remote_fake_port)

  -- What follows the reply to the association: the datagram is put behind its header in a buffer of
  -- 1514 bytes, and sent.
  unfoldable pub forward_datagram : Conf → Bool → ℕ → Bytes → E (Unit {0})
  forward_datagram conf is_dns fd buff = do
    let relay : SockAddr = relay_address env buff
    (ip, port) ← target_of conf is_dns
    if ltb buffer_size (10 + length d.payload) then fault else (do
      relay_fd? ← send_datagram (udp_header ip port ++ d.payload) relay
      elim relay_fd? [
        | none ↦ pure tt
        | some relay_fd ↦ do start_exchange udp_socks_relay relay_fd fd relay; free_payload
      ])

  -- The UDP association: the method, the request and its reply in one buffer.
  unfoldable pub associate : Conf → Bool → ℕ → E (Unit {0})
  associate conf is_dns fd = do
    _ ← sys (System.send env fd method_request)
    choice ← sys (System.recv env fd 2)
    elim choice [
      | none ↦ pure tt
      | some bs ↦
          if method_chosen (fill method_request bs)
          then (do
            (ip, port) ← target_of conf is_dns
            let request = associate_request ip port
            _ ← sys (System.send env fd request)
            reply ← sys (System.recv env fd 10)
            elim reply [
              | none ↦ pure tt
              | some cs ↦
                  if version_ok (fill request cs)
                  then forward_datagram conf is_dns fd (fill request cs)
                  else pure tt
            ])
          else pure tt
    ]

  unfoldable pub relay_datagram : Conf → Bool → E (Unit {0})
  relay_datagram conf is_dns = do
    fd? ← connect_socks conf
    elim fd? [ none ↦ pure tt | some fd ↦ associate conf is_dns fd ]

  -- Whether the datagram is a DNS query that goes to the remote server over UDP.
  unfoldable pub is_udp_dns : Conf → Bytes → E Bool
  is_udp_dns conf mode =
      if bytes_eq mode (codes "udp")
      then (do local ← text conf.local_dns_port; pure (d.remote_fake_port == atoi local))
      else pure false

  unfoldable pub relay_dns : Parse → Conf → E (Unit {0})
  relay_dns parse conf = do
    domain? ← get_query_domain parse d.payload
    elim domain? [
      | none ↦ pure tt
      | some domain ↦ by_verdict conf domain (relay_datagram conf true)
    ]

  unfoldable pub relay_other : Conf → E (Unit {0})
  relay_other conf = do
    relayed ← text conf.relay_none_dns_packet_with_udp
    if bytes_eq relayed (codes "false") then free_payload else relay_datagram conf false

  -- The handler, for a `p` that is not NULL.
  unfoldable pub udp_raw_recv : Parse → Conf → E (Unit {0})
  udp_raw_recv parse conf = do
    mode ← text conf.dns_mode
    if bytes_eq mode (codes "tcp") && d.remote_fake_port == 53
        then redirect_dns parse conf
        else if ltb tcp_wnd (length d.payload)
        then fault
        else (do
          is_dns ← is_udp_dns conf mode
          if is_dns then relay_dns parse conf else relay_other conf)
