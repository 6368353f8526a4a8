-- ===== src/Udp/Associating.antt =====
-- How `udp_raw_recv` of src/udp_raw.cpp passes a datagram on through the SOCKS5 server.
use ip2socks.Common.{
  ℕ, ◌≤◌, ◌≡◌, inl, inr, refl, Bool, true, false, Option, none, some, List, [], ◌∷◌, ◌++◌, Bytes,
  length, arith, Option-cases, Bool-cases,
}
use ip2socks.Numbers.{atoi}
use ip2socks.System.{
  Ip4, SockAddr, dgram, Env, Trace, opened, bound, sent, sent_to, received, pbuf_freed, at_most,
}
use ip2socks.Socks5.{fill, method_request, method_chosen, version_ok, aton_fresh}
use ip2socks.Tcp.State.{Ev}
use ip2socks.Config.{Conf}
use ip2socks.Udp.{udp_socks_relay, Exchange}
use ip2socks.Udp.Wire.{Datagram, text, udp_header, associate_request, relay_address}
use ip2socks.Udp.Query.{
  target_of, forward_datagram, associate, send_datagram, start_exchange, free_payload,
}

-- The datagrams that were sent, the last one first.
abbrev pub datagrams : Trace → List (Bytes × SockAddr)
datagrams [] = []
datagrams (sent_to fd bs a (some n) ∷ t) = (bs, a) ∷ datagrams t
datagrams (e ∷ t) = datagrams t

module _ (env : Env) (ev : Ev) (d : Datagram) (conf : Conf) where
  -- The target of a datagram: the remote DNS server of the configuration, or where it was sent.
  abbrev pub Target : Bool → Ip4 → ℕ → Type 0
  Target true ip port =
      (s : Bytes) × (p : Bytes) × (conf.remote_dns_server ≡ some s)
      × (conf.remote_dns_port ≡ some p)
      × (env.inet_aton s ≡ some ip)
      × (port ≡ atoi p)
  Target false ip port =
      (env.inet_aton (env.inet_ntop d.remote_fake_ip) ≡ some ip) × (port ≡ d.remote_fake_port)

  target_run :
      (is_dns : Bool) (ip : Ip4) (port : ℕ) (x : Exchange)
      → Target is_dns ip port
      → target_of env ev d conf is_dns x ≡ some ((ip, port), x)
  unfolding target_of text aton_fresh
  target_run true ip port x (s, p, a, b, known, e) = ground arith
  target_run false ip port x (known, e) = ground arith

  -- A datagram that a new socket sends.
  module _ (bs : Bytes) (a : SockAddr) (x : Exchange) where
    not_opened :
        env.socket x.trace dgram ≡ none
        → send_datagram env ev d bs a x
          ≡ some (none, record x { trace = opened dgram none ∷ x.trace })
    unfolding send_datagram
    not_opened e = ground arith

    module _ (fd : ℕ) (e : env.socket x.trace dgram ≡ some fd) where
      abbrev pub open_trace : Trace
      open_trace = opened dgram (some fd) ∷ x.trace

      not_bound :
          env.bind open_trace fd ≡ false
          → send_datagram env ev d bs a x
            ≡ some (none, record x { trace = bound fd false ∷ open_trace })
      unfolding send_datagram
      not_bound b = ground arith

      abbrev bind_trace : Trace
      bind_trace = bound fd true ∷ open_trace

      not_sent :
          env.bind open_trace fd ≡ true
          → env.sendto bind_trace fd bs a ≡ none
          → send_datagram env ev d bs a x
            ≡ some (none, record x { trace = sent_to fd bs a none ∷ bind_trace })
      unfolding send_datagram
      not_sent b s = ground arith

      was_sent :
          (n : ℕ)
          → env.bind open_trace fd ≡ true
          → env.sendto bind_trace fd bs a ≡ some n
          → send_datagram env ev d bs a x
            ≡ some (some fd, record x { trace = sent_to fd bs a (some n) ∷ bind_trace })
      unfolding send_datagram
      was_sent n b s = ground arith

    -- It was not sent, or it is the last datagram that was.
    abbrev pub Tried : Option (Option ℕ × Exchange) → Type 0
    Tried none = ⊥
    Tried (some (none, y)) =
        (u : Trace) × (y ≡ record x { trace = u }) × (datagrams u ≡ datagrams x.trace)
    Tried (some (some fd, y)) =
        (u : Trace) × (y ≡ record x { trace = u }) × (datagrams u ≡ (bs, a) ∷ datagrams x.trace)

    pub send_datagram-Tried : Tried (send_datagram env ev d bs a x)
    send_datagram-Tried = elim (Option-cases (env.socket x.trace dgram)) [
      | inl e ↦ rw (not_opened e) (_, refl, refl)
      | inr (fd, e) ↦ elim (Bool-cases (env.bind (open_trace fd e) fd)) [
        | inr b ↦ rw (not_bound fd e b) (_, refl, refl)
        | inl b ↦ elim (Option-cases (env.sendto (bind_trace fd e) fd bs a)) [
          | inl s ↦ rw (not_sent fd e b s) (_, refl, refl)
          | inr (n, s) ↦ rw (was_sent fd e n b s) (_, refl, refl)
        ]
      ]
    ]

  module _ (is_dns : Bool) (ip : Ip4) (port : ℕ) (target : Target is_dns ip port)
      (fits : length d.payload ≤ 1504) where
    abbrev pub datagram : Bytes
    datagram = udp_header ip port ++ d.payload

    -- The exchange that waits for the answers of the SOCKS5 server.
    abbrev pub begun : ℕ → ℕ → SockAddr → Trace → Exchange
    begun fd relay_fd relay u = record {
      es = some (record {
        socks_tcp_fd = fd;
        pcb = d.upcb;
        addr = relay;
        addr_ip = env.inet_ntop d.addr;
        udp_port = d.port;
      });
      handler = udp_socks_relay;
      io = ev.io_start false;
      io_fd = relay_fd;
      timeout = ev.timer_start (record { active = false; repeat = 0 });
      trace = u;
    }

    module _ (fd : ℕ) (buff : Bytes) (x : Exchange) where
      abbrev pub relay : SockAddr
      relay = relay_address env buff

      pub gave_up :
          (u : Trace)
          → send_datagram env ev d datagram relay x ≡ some (none, record x { trace = u })
          → forward_datagram env ev d conf is_dns fd buff x ≡ some (tt, record x { trace = u })
      unfolding forward_datagram
      gave_up u e = ground (arith, target_run is_dns ip port x target)

      pub forwarded :
          (relay_fd : ℕ) (u : Trace)
          → send_datagram env ev d datagram relay x ≡ some (some relay_fd, record x { trace = u })
          → forward_datagram env ev d conf is_dns fd buff x
            ≡ some (tt, begun fd relay_fd relay (pbuf_freed ∷ u))
      unfolding forward_datagram start_exchange free_payload
      forwarded relay_fd u e = ground (arith, target_run is_dns ip port x target)

    module _ (fd : ℕ) (x : Exchange) where
      abbrev pub request : Bytes
      request = associate_request ip port

      abbrev pub asked : Trace
      asked = sent fd method_request (env.send x.trace fd method_request) ∷ x.trace

      abbrev pub choice : Option Bytes
      choice = at_most 2 (env.recv asked fd)

      abbrev pub chosen : Trace
      chosen = received fd choice ∷ asked

      abbrev pub requested : Trace
      requested = sent fd request (env.send chosen fd request) ∷ chosen

      abbrev pub reply : Option Bytes
      reply = at_most 10 (env.recv requested fd)

      abbrev pub replied : Trace
      replied = received fd reply ∷ requested

      pub no_choice :
          choice ≡ none
          → associate env ev d conf is_dns fd x ≡ some (tt, record x { trace = chosen })
      unfolding associate
      no_choice e = ground arith

      module _ (bs : Bytes) (c : choice ≡ some bs) where
        pub refused :
            method_chosen (fill method_request bs) ≡ false
            → associate env ev d conf is_dns fd x ≡ some (tt, record x { trace = chosen })
        unfolding associate
        refused m = ground arith

        module _ (m : method_chosen (fill method_request bs) ≡ true) where
          pub no_reply :
              reply ≡ none
              → associate env ev d conf is_dns fd x ≡ some (tt, record x { trace = replied })
          unfolding associate
          no_reply r =
              ground (arith, target_run is_dns ip port (record x { trace = chosen }) target)

          pub not_agreed :
              (cs : Bytes)
              → reply ≡ some cs
              → version_ok (fill request cs) ≡ false
              → associate env ev d conf is_dns fd x ≡ some (tt, record x { trace = replied })
          unfolding associate
          not_agreed cs r v =
              ground (arith, target_run is_dns ip port (record x { trace = chosen }) target)

          pub agreed :
              (cs : Bytes)
              → reply ≡ some cs
              → version_ok (fill request cs) ≡ true
              → associate env ev d conf is_dns fd x
                ≡ forward_datagram env ev d conf is_dns fd
                    (fill request cs)
                    (record x { trace = replied })
          unfolding associate
          agreed cs r v =
              ground (arith, target_run is_dns ip port (record x { trace = chosen }) target)
