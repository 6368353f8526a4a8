-- ===== src/Udp/Answering.antt =====
-- A DNS query that src/udp_raw.cpp forwards, from the client to the server and back.
use ip2socks.Common.{
  ℕ, ◌≤◌, ◌<◌, ◌≡◌, ap, ◌∙◌, true, false, Option, none, some, List, [], ◌∷◌, ◌++◌, Bytes, codes,
  length, map, take_all, arith, if◌then◌else◌,
}
use ip2socks.System.{Env, dgram, opened, at_most, ◌>>◌, ◌>>=◌, pure, Cmd}
use ip2socks.Tcp.State.{Ev, EvLaws}
use ip2socks.Tcp.Accepting.{closes}
use ip2socks.Tcp.Timeout.{either}
use ip2socks.Rules.{Verdict}
use ip2socks.Rules.FirstMatch.{Rule, row, FirstMatch}
use ip2socks.Config.{Conf}
use ip2socks.Dns.{Parse}
use ip2socks.Udp.{UdpRawState, Exchange, dns_relay}
use ip2socks.Udp.Wire.{Datagram, undecided}
use ip2socks.Udp.Query.{udp_raw_recv}
use ip2socks.Udp.Forwarding.{waiting, bound_trace, dns_address, udp_raw_recv_forwarded}
use ip2socks.Udp.Replies.{
  callback, replies, reply_to, shut, Long, HasPbufs, IsOver, callback-IsOver,
}
use ip2socks.Udp.Events.{answer_readable, deliver}

-- A command behind one that ended.
seq_run :
    {S B : Type 0} (m : Cmd S (Unit {0})) (k : Cmd S B) (s s' : S)
    → m s ≡ some (tt, s')
    → (m >> k) s ≡ k s'
seq_run m k s s' e = rw (e, ◌>>=◌)

module _ (env : Env) {ev : Ev} (laws : EvLaws ev) (d : Datagram) (parse : Parse) (conf : Conf)
    (x : Exchange) where
  no_header : (r : Option Bytes) → Long env 0 r
  no_header none = tt
  no_header (some []) = tt
  no_header (some (b ∷ bs)) = omega arith

  abbrev asked : ℕ → ℕ → Bytes → Exchange
  asked fd n server = waiting env ev d parse conf x fd n server

  -- The exchange that waits gets its answer.
  answer_step :
      (fd n b : ℕ) (bs server : Bytes)
      → let y = asked fd n server in
        env.recv y.trace fd ≡ some (b ∷ bs)
        → length (b ∷ bs) ≤ 1514
        → env.inet_addr (env.inet_ntop d.addr) ≡ d.addr
        → HasPbufs env
        → (z : Exchange) × (deliver env ev answer_readable y ≡ some (tt, z))
          × IsOver z
          × (closes z.trace ≡ fd ∷ closes x.trace)
          × (replies z.trace ≡ (d.upcb, b ∷ bs, d.addr, d.port) ∷ replies x.trace)
  unfolding deliver
  answer_step fd n b bs server got fits back memory' =
      let y = asked fd n server in
      let c : UdpRawState = record {
        socks_tcp_fd = 0;
        pcb = d.upcb;
        addr = dns_address env ev d parse conf x server;
        addr_ip = env.inet_ntop d.addr;
        udp_port = d.port;
      } in
      let (z, e, over, shut', sent) =
        callback-IsOver env laws memory' dns_relay c y.io fd y.timeout y.trace (no_header _) in
      let whole : at_most 1514 (env.recv y.trace fd) ≡ some (b ∷ bs) =
        unfold at_most in (rw got (ap some (take_all 1514 (b ∷ bs) fits))) in
      (
        z,
        either (λ io. (if io then callback env ev dns_relay else pure tt) y ≡ some (tt, z)) y.io e
            (λ off. absurd (cc (off, laws.io_start_active false))),
        over,
        shut' ∙ ap (λ r. shut dns_relay c fd r ++ closes x.trace) whole,
        sent
            ∙ ap (λ r. reply_to env c 0 r ++ replies x.trace) whole
            ∙ ap (λ a. (d.upcb, b ∷ bs, a, d.port) ∷ replies x.trace) back,
      )

  both :
      (y z : Exchange)
      → udp_raw_recv env ev d parse conf x ≡ some (tt, y)
      → deliver env ev answer_readable y ≡ some (tt, z)
      → (udp_raw_recv env ev d parse conf >> deliver env ev answer_readable) x ≡ some (tt, z)
  both y z e e' =
      seq_run (udp_raw_recv env ev d parse conf) (deliver env ev answer_readable) x y e ∙ e'

  -- In the mode `tcp`, a DNS query of at most 1460 bytes, for a domain of less than 256 bytes that
  -- the first rule that applies to it forwards, is answered, with port 53 whatever the setting
  -- `local_dns_port` is: if a new socket opens, is bound and sends, the answer of the server, of 1
  -- to 1514 bytes, is there to be read, `inet_addr` reads the query's address from the text that
  -- `inet_ntop` wrote, and the stack has memory for every `pbuf`, then the readable socket sends
  -- back that answer, whole, over the query's pcb to its address and port. Nothing else is sent
  -- back, the exchange is over, and the new socket, and nothing else, has been closed.
  pub query_answered :
      (rs : List Rule) (domain : Bytes) (qs : List (Option Bytes)) (w : Verdict) (fd n b : ℕ)
      (bs : Bytes)
      → conf.domains ≡ map row rs
      → FirstMatch domain undecided rs w
      → w.blocked ≡ false
      → w.matched ≡ true
      → conf.dns_mode ≡ some (codes "tcp")
      → d.remote_fake_port ≡ 53
      → length d.payload ≤ 1460
      → parse d.payload ≡ some (some domain ∷ qs)
      → length domain < 256
      → env.socket x.trace dgram ≡ some fd
      → env.bind (opened dgram (some fd) ∷ x.trace) fd ≡ true
      → env.sendto
          (bound_trace env ev d parse conf x fd)
          fd
          d.payload
          (dns_address env ev d parse conf x w.dns_server)
        ≡ some n
      → env.recv ((asked fd n w.dns_server).trace) fd ≡ some (b ∷ bs)
      → length (b ∷ bs) ≤ 1514
      → env.inet_addr (env.inet_ntop d.addr) ≡ d.addr
      → HasPbufs env
      → (z : Exchange) × ((udp_raw_recv env ev d parse conf >> deliver env ev answer_readable) x
          ≡ some (tt, z))
        × IsOver z
        × (closes z.trace ≡ fd ∷ closes x.trace)
        × (replies z.trace ≡ (d.upcb, b ∷ bs, d.addr, d.port) ∷ replies x.trace)
  query_answered rs domain qs w fd n b bs loaded first bl m mode port fits asks short s bd t got few
        back memory' =
      let (z, e, over, shut', sent) = answer_step fd n b bs w.dns_server got few back memory' in
      let forwarded =
        udp_raw_recv_forwarded env ev d parse conf x rs domain qs w fd n loaded first bl m mode port
          fits asks short s bd t in
      (z, both _ z forwarded e, over, shut', sent)
