-- ===== src/Udp/Handling/Queries.antt =====
-- The DNS queries that `udp_raw_recv` of src/udp_raw.cpp passes on, and what becomes of their
-- payload.
use ip2socks.Common.{
  ℕ, ◌+◌, ◌%◌, ◌≤◌, ◌<◌, ◌≡◌, refl, false, Option, none, some, List, [], ◌∷◌, Bytes, length, arith,
  ltb,
}
use ip2socks.Numbers.{atoi, decimal}
use ip2socks.System.{Env, SockAddr, dgram, ◌>>◌}
use ip2socks.Util.{ok}
use ip2socks.Rules.{Verdict, match_dns_rule}
use ip2socks.Tcp.State.{Ev}
use ip2socks.Config.{Conf}
use ip2socks.Dns.{Parse, hostname_from_question, get_query_domain}
use ip2socks.Udp.{Handler, tcp_dns, E}
use ip2socks.Udp.Wire.{Datagram, tcp_query, text, undecided, decide}
use ip2socks.Udp.Query.{
  free_payload, start_exchange, send_datagram, query_with_udp, connect_socks, query_with_tcp,
  by_verdict, redirect_dns,
}
use ip2socks.Udp.Handling.{
  IsTame, IsFinal, IsTame-pure, IsTame-bind, IsTame-if, IsTame-text, IsFinal-nothing, IsFinal-free,
  IsFinal-tame, IsFinal-bind, IsFinal-if,
}
use ip2socks.Udp.Handling.Calls.{
  IsFinal-option, IsTame-option, IsTame-socket, IsTame-bound, IsTame-sendto, IsTame-send,
  IsTame-connect, IsTame-auth,
}

abbrev pub IsGiven : Option Bytes → Type 0
IsGiven s = (b : Bytes) × (s ≡ some b)

-- The fields that the handler uses are set, no rule throws an exception, a question has less than
-- 256 bytes, and the datagram fits the buffer.
pub record IsReady (parse : Parse) (conf : Conf) (d : Datagram) : Type 0 where
  pub mode : IsGiven conf.dns_mode
  pub local_port : IsGiven conf.local_dns_port
  pub relayed : IsGiven conf.relay_none_dns_packet_with_udp
  pub server : IsGiven conf.remote_dns_server
  pub server_port : IsGiven conf.remote_dns_port
  pub socks_host : IsGiven conf.socks_server
  pub socks_port : IsGiven conf.socks_port
  pub decides :
      (domain : Bytes) → (v : Verdict) × (match_dns_rule conf.domains domain undecided ≡ ok v)
  pub short :
      (name : Bytes) (qs : List (Option Bytes))
      → parse d.payload ≡ some (some name ∷ qs)
      → length name < 256
  pub small : length d.payload ≤ 1460

pub IsTame-set : {s : Option Bytes} → IsGiven s → IsTame (text s)
IsTame-set (b, e) = IsTame-text _ b e

module _ (env : Env) (ev : Ev) (d : Datagram) (parse : Parse) (conf : Conf)
    (r : IsReady parse conf d) where
  IsTame-exchange :
      (h : Handler) (fd tcp : ℕ) (a : SockAddr) → IsTame (start_exchange env ev d h fd tcp a)
  unfolding start_exchange
  IsTame-exchange h fd tcp a = record {
    at = λ x. record { no_free = refl; no_close = refl; no_reply = refl };
  }

  pub free_payload-IsFinal : IsFinal (free_payload env ev d)
  unfolding free_payload
  free_payload-IsFinal = IsFinal-free

  pub send_datagram-IsTame : (bs : Bytes) (a : SockAddr) → IsTame (send_datagram env ev d bs a)
  unfolding send_datagram
  send_datagram-IsTame bs a = IsTame-bind (IsTame-socket env dgram) λ fd?.
      IsTame-option fd? (IsTame-pure none) λ fd. IsTame-bind (IsTame-bound env fd) λ done.
        IsTame-if done
          (IsTame-bind (IsTame-sendto env fd bs a)
            λ nread. IsTame-option nread (IsTame-pure none) λ n. IsTame-pure (some fd))
          (IsTame-pure none)

  -- An exchange begins, and the payload is freed.
  pub begin_and_free :
      (h : Handler) (fd tcp : ℕ) (a : SockAddr)
      → IsFinal (start_exchange env ev d h fd tcp a >> free_payload env ev d)
  begin_and_free h fd tcp a = IsFinal-bind (IsTame-exchange h fd tcp a) λ _. free_payload-IsFinal

  query_with_udp-IsFinal : (s : Bytes) → IsFinal (query_with_udp env ev d s)
  unfolding query_with_udp
  query_with_udp-IsFinal s =
      IsFinal-bind (send_datagram-IsTame d.payload _)
        λ fd?. IsFinal-option fd? IsFinal-nothing λ fd. begin_and_free _ fd 0 _

  pub connect_socks-IsTame : IsTame (connect_socks env ev d conf)
  unfolding connect_socks
  connect_socks-IsTame = IsTame-bind (IsTame-set r.socks_host) λ host.
      IsTame-bind (IsTame-set r.socks_port) λ port.
        IsTame-bind (IsTame-connect env host port) λ fd?.
          IsTame-option fd? (IsTame-pure none)
            λ fd. IsTame-if (ltb fd 1) (IsTame-pure none) (IsTame-pure (some fd))

  query_with_tcp-IsFinal : IsFinal (query_with_tcp env ev d conf)
  unfolding query_with_tcp
  query_with_tcp-IsFinal = IsFinal-bind (IsTame-set r.server) λ server.
      IsFinal-bind connect_socks-IsTame λ fd?. IsFinal-option fd? IsFinal-nothing λ fd.
        IsFinal-bind (IsTame-auth env fd server (decimal d.remote_fake_port) 1) λ granted.
          IsFinal-if granted
            (IsFinal-bind (IsTame-send env fd (tcp_query d)) λ _.
              IsFinal-bind (IsTame-set r.socks_host) λ host.
                IsFinal-bind (IsTame-set r.socks_port) λ port. IsFinal-tame (
                  IsTame-exchange tcp_dns fd fd
                    (record { ip = env.inet_addr host; port = atoi port % 65536 })))
            IsFinal-nothing

  decide-IsTame : (domain : Bytes) → IsTame (decide conf domain)
  unfolding decide
  decide-IsTame domain = let (v, e) = r.decides domain in rw (e, decide) (IsTame-pure v)

  pub by_verdict-IsFinal :
      (domain : Bytes) (otherwise : E (Unit {0}))
      → IsFinal otherwise
      → IsFinal (by_verdict env ev d conf domain otherwise)
  unfolding by_verdict
  by_verdict-IsFinal domain otherwise k = IsFinal-bind (decide-IsTame domain) λ v.
      IsFinal-if v.blocked free_payload-IsFinal
        (IsFinal-if v.matched (query_with_udp-IsFinal v.dns_server) k)

  named_question-IsTame :
      (m : Option (List (Option Bytes)))
      → parse d.payload ≡ m
      → IsTame {A = Option Bytes}
          (λ x. elim m [ none ↦ some (none, x) | some msg ↦ hostname_from_question msg x ])
  unfolding hostname_from_question
  named_question-IsTame none e = IsTame-pure none
  named_question-IsTame (some []) e = IsTame-pure none
  named_question-IsTame (some (none ∷ qs)) e = IsTame-pure none
  named_question-IsTame (some (some name ∷ qs)) e =
      let fits : ltb 256 (length name + 1) ≡ false = ground (arith, r.short name qs e) in
      rw fits (IsTame-pure (some name))

  pub get_query_domain-IsTame : IsTame (get_query_domain parse d.payload)
  unfolding get_query_domain
  get_query_domain-IsTame = named_question-IsTame (parse d.payload) refl

  pub redirect_dns-IsFinal : IsFinal (redirect_dns env ev d parse conf)
  unfolding redirect_dns
  redirect_dns-IsFinal =
      let fits : ltb 1460 (length d.payload) ≡ false = ground (arith, r.small) in
      rw fits (
        IsFinal-bind get_query_domain-IsTame λ domain?.
          IsFinal-option domain? IsFinal-nothing λ domain.
            by_verdict-IsFinal domain (query_with_tcp env ev d conf) query_with_tcp-IsFinal)
