-- ===== src/Udp/Handling/Paths.antt =====
-- Every path of `udp_raw_recv` of src/udp_raw.cpp, and what it does with the payload and
-- descriptors.
use ip2socks.Common.{
  ℕ, ◌+◌, ◌≡◌, refl, Bool, true, false, ◌&&◌, Option, none, some, Bytes, codes, bytes_eq, length,
  arith, ltb, ◌==◌, if◌then◌else◌,
}
use ip2socks.System.{Env, Trace, Ip4, pure}
use ip2socks.Socks5.{method_request, method_chosen, version_ok, fill}
use ip2socks.Tcp.State.{Ev}
use ip2socks.Config.{Conf}
use ip2socks.Dns.{Parse}
use ip2socks.Udp.{Exchange, E}
use ip2socks.Udp.Wire.{associate_request, Datagram}
use ip2socks.Udp.Query.{
  target_of, forward_datagram, associate, relay_datagram, is_udp_dns, relay_dns, relay_other,
  udp_raw_recv,
}
use ip2socks.Udp.Handling.{
  EndsSpent, Spent, IsTame, IsFinal, IsTame-pure, IsTame-bind, IsTame-if, IsFinal-nothing,
  IsFinal-bind, IsFinal-if,
}
use ip2socks.Udp.Handling.Calls.{IsFinal-option, IsTame-send, IsTame-recv, IsTame-aton}
use ip2socks.Udp.Handling.Queries.{
  IsReady, IsTame-set, send_datagram-IsTame, begin_and_free, connect_socks-IsTame,
  free_payload-IsFinal, get_query_domain-IsTame, by_verdict-IsFinal, redirect_dns-IsFinal,
}

module _ (env : Env) (ev : Ev) (d : Datagram) (parse : Parse) (conf : Conf)
    (r : IsReady parse conf d) where
  target_of-IsTame : (is_dns : Bool) → IsTame (target_of env ev d conf is_dns)
  unfolding target_of
  target_of-IsTame true = IsTame-bind (IsTame-set r.server) λ server.
      IsTame-bind (IsTame-set r.server_port)
        λ port. IsTame-bind (IsTame-aton env server) λ ip. IsTame-pure _
  target_of-IsTame false = IsTame-bind (IsTame-aton env _) λ ip. IsTame-pure _

  forward_datagram-IsFinal :
      (is_dns : Bool) (fd : ℕ) (buff : Bytes)
      → IsFinal (forward_datagram env ev d conf is_dns fd buff)
  unfolding forward_datagram
  forward_datagram-IsFinal is_dns fd buff =
      let fits : ltb 1514 (10 + length d.payload) ≡ false = ground (arith, r.small) in
      IsFinal-bind (target_of-IsTame is_dns) λ (ip, port). rw fits (
        IsFinal-bind (send_datagram-IsTame env ev d parse conf r _ _) λ relay_fd?.
          IsFinal-option relay_fd? IsFinal-nothing
            λ relay_fd. begin_and_free env ev d parse conf r _ relay_fd fd _)

  reply_read :
      (is_dns : Bool) (fd : ℕ) (ip : Ip4) (port : ℕ) (reply : Option Bytes)
      → IsFinal (elim reply as (λ _. E (Unit {0})) [
        | none ↦ pure tt
        | some cs ↦
            if version_ok (fill (associate_request ip port) cs)
            then forward_datagram env ev d conf is_dns fd (fill (associate_request ip port) cs)
            else pure tt
      ])
  reply_read is_dns fd ip port none = IsFinal-nothing
  reply_read is_dns fd ip port (some cs) =
      IsFinal-if _ (forward_datagram-IsFinal is_dns fd _) IsFinal-nothing

  associate-IsFinal : (is_dns : Bool) (fd : ℕ) → IsFinal (associate env ev d conf is_dns fd)
  unfolding associate
  associate-IsFinal is_dns fd = IsFinal-bind (IsTame-send env fd method_request) λ _.
      IsFinal-bind (IsTame-recv env fd 2) λ choice. IsFinal-option choice IsFinal-nothing λ bs.
        IsFinal-if (method_chosen (fill method_request bs))
          (IsFinal-bind (target_of-IsTame is_dns) λ (ip, port).
            IsFinal-bind (IsTame-send env fd (associate_request ip port))
              λ _. IsFinal-bind (IsTame-recv env fd 10) λ reply. reply_read is_dns fd ip port reply)
          IsFinal-nothing

  relay_datagram-IsFinal : (is_dns : Bool) → IsFinal (relay_datagram env ev d conf is_dns)
  unfolding relay_datagram
  relay_datagram-IsFinal is_dns =
      IsFinal-bind (connect_socks-IsTame env ev d parse conf r)
        λ fd?. IsFinal-option fd? IsFinal-nothing λ fd. associate-IsFinal is_dns fd

  is_udp_dns-IsTame : (mode : Bytes) → IsTame (is_udp_dns env ev d conf mode)
  unfolding is_udp_dns
  is_udp_dns-IsTame mode =
      IsTame-if (bytes_eq mode (codes "udp"))
        (IsTame-bind (IsTame-set r.local_port) λ local. IsTame-pure _) (IsTame-pure false)

  relay_dns-IsFinal : IsFinal (relay_dns env ev d parse conf)
  unfolding relay_dns
  relay_dns-IsFinal = IsFinal-bind (get_query_domain-IsTame env ev d parse conf r) λ domain?.
      IsFinal-option domain? IsFinal-nothing λ domain.
        by_verdict-IsFinal env ev d parse conf r domain (relay_datagram env ev d conf true)
          (relay_datagram-IsFinal true)

  relay_other-IsFinal : IsFinal (relay_other env ev d conf)
  unfolding relay_other
  relay_other-IsFinal = IsFinal-bind (IsTame-set r.relayed) λ relayed.
      IsFinal-if (bytes_eq relayed (codes "false")) (free_payload-IsFinal env ev d parse conf r)
        (relay_datagram-IsFinal false)

  udp_raw_recv-IsFinal : IsFinal (udp_raw_recv env ev d parse conf)
  unfolding udp_raw_recv
  udp_raw_recv-IsFinal =
      let fits : ltb 65535 (length d.payload) ≡ false = ground (arith, r.small) in
      IsFinal-bind (IsTame-set r.mode) λ mode.
        IsFinal-if (bytes_eq mode (codes "tcp") && d.remote_fake_port == 53)
          (redirect_dns-IsFinal env ev d parse conf r)
          (rw fits (
            IsFinal-bind (is_udp_dns-IsTame mode)
              λ is_dns. IsFinal-if is_dns relay_dns-IsFinal relay_other-IsFinal))

Spent-exchange :
    (t : Trace) (r : Option (Unit {0} × Exchange))
    → EndsSpent t r
    → (y : Exchange) × (r ≡ some (tt, y)) × Spent t y.trace
Spent-exchange t none h = absurd h
Spent-exchange t (some (tt', y)) h = (y, refl, h)

-- With the fields that it uses set, rules that throw no exception, a question shorter than 256
-- bytes and a datagram of at most 1460 bytes, `udp_raw_recv` always returns, whatever the peers,
-- the SOCKS5 server and the kernel answer. It has then freed the payload at most once and closed no
-- descriptor, not even where it gave up, and it has answered nobody.
pub udp_raw_recv-Spent :
    (env : Env) (ev : Ev) (d : Datagram) (parse : Parse) (conf : Conf) (x : Exchange)
    → IsReady parse conf d
    → (y : Exchange) × (udp_raw_recv env ev d parse conf x ≡ some (tt, y)) × Spent x.trace y.trace
udp_raw_recv-Spent env ev d parse conf x r =
    Spent-exchange x.trace (udp_raw_recv env ev d parse conf x)
      ((udp_raw_recv-IsFinal env ev d parse conf r).at x)
