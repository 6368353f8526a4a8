-- ===== src/Udp/Passing.antt =====
-- All that can become of a datagram that src/udp_raw.cpp passes on through the SOCKS5 server.
use ip2socks.Common.{
  ℕ, ◌≤◌, ◌≡◌, inl, inr, refl, ap, ◌∙◌, Bool, true, false, Option, none, some, ◌∷◌, ◌++◌, Bytes,
  length, arith, Option-cases, Bool-cases,
}
use ip2socks.System.{Ip4, Env, Trace, pbuf_freed}
use ip2socks.Socks5.{fill, method_request, method_chosen, version_ok, socks5_connect}
use ip2socks.Tcp.State.{Ev}
use ip2socks.Config.{Conf}
use ip2socks.Udp.{Exchange}
use ip2socks.Udp.Wire.{Datagram, udp_header, associate_request, relay_address}
use ip2socks.Udp.Query.{connect_socks, forward_datagram, associate, relay_datagram, send_datagram}
use ip2socks.Udp.Associating.{
  datagrams, Target, Tried, send_datagram-Tried, begun, gave_up, forwarded, choice, chosen, reply,
  replied, no_choice, refused, no_reply, not_agreed, agreed,
}
use ip2socks.Udp.Connecting.{connect-Quiet, kept, connected}

module _ (env : Env) (ev : Ev) (d : Datagram) (conf : Conf) where
  module _ (is_dns : Bool) (ip : Ip4) (port : ℕ) (target : Target env ev d conf is_dns ip port)
      (fits : length d.payload ≤ 1504) where
    abbrev whole : Bytes
    whole = udp_header ip port ++ d.payload

    -- No exchange has begun, and no datagram was sent.
    abbrev pub Kept : Exchange → Exchange → Type 0
    Kept x x' = (u : Trace) × (x' ≡ record x { trace = u }) × (datagrams u ≡ datagrams x.trace)

    -- After the connection to the SOCKS5 server, with descriptor `fd` and exchange `y`.
    module _ (fd : ℕ) (y : Exchange) where
      -- The server's choice, if it was read.
      abbrev pub the_choice : Option Bytes
      the_choice = choice env ev d conf is_dns ip port target fits fd y

      -- Its reply to the request for an association, if it was read.
      abbrev pub the_reply : Option Bytes
      the_reply = reply env ev d conf is_dns ip port target fits fd y

      abbrev pub answer : Bytes → Bytes
      answer cs = fill (associate_request ip port) cs

      -- The server's choice left 5 0 in the buffer, and its reply a 5 in front.
      abbrev pub Granted : Bytes → Bytes → Type 0
      Granted bs cs =
          (the_choice ≡ some bs)
          × (method_chosen (fill method_request bs) ≡ true)
          × (the_reply ≡ some cs)
          × (version_ok (answer cs) ≡ true)

      abbrev pub after_choice : Exchange
      after_choice = record y { trace = chosen env ev d conf is_dns ip port target fits fd y }

      abbrev pub after_reply : Exchange
      after_reply = record y { trace = replied env ev d conf is_dns ip port target fits fd y }

      -- The datagram behind its header went to the address in the buffer, and the exchange waits.
      abbrev pub Sent : Bytes → Exchange → Type 0
      Sent cs x' =
          let relay = relay_address env (answer cs) in
          (relay_fd : ℕ) × (w : Trace) × (x'
            ≡ begun env ev d conf is_dns ip port target fits fd relay_fd relay w)
          × (datagrams w ≡ (whole, relay) ∷ datagrams y.trace)

      abbrev pub NotSent : Bytes → Exchange → Type 0
      NotSent cs x' =
          (send_datagram env ev d whole (relay_address env (answer cs)) after_reply
            ≡ some (none, x'))
          × Kept after_reply x'

      -- What becomes of the datagram, each outcome with its reason: nothing is sent where an answer
      -- was not read, or is not what was asked for, or where the socket could not send; else it is
      -- sent.
      pub data Passed : Exchange → Type 0 where
        unread_choice : the_choice ≡ none → Passed after_choice
        other_method :
            (bs : Bytes)
            → the_choice ≡ some bs
            → method_chosen (fill method_request bs) ≡ false
            → Passed after_choice
        unread_reply :
            (bs : Bytes)
            → the_choice ≡ some bs
            → method_chosen (fill method_request bs) ≡ true
            → the_reply ≡ none
            → Passed after_reply
        other_version :
            (bs cs : Bytes)
            → the_choice ≡ some bs
            → method_chosen (fill method_request bs) ≡ true
            → the_reply ≡ some cs
            → version_ok (answer cs) ≡ false
            → Passed after_reply
        not_sent : (bs cs : Bytes) (x' : Exchange) → Granted bs cs → NotSent cs x' → Passed x'
        passed_on : (bs cs : Bytes) (x' : Exchange) → Granted bs cs → Sent cs x' → Passed x'

      abbrev Outcome : Option (Unit {0} × Exchange) → Type 0
      Outcome none = ⊥
      Outcome (some (tt', x')) = Passed x'

      -- What follows an accepted reply.
      Tried-Outcome :
          (bs cs : Bytes) (r : Option (Option ℕ × Exchange))
          → Granted bs cs
          → send_datagram env ev d whole (relay_address env (answer cs)) after_reply ≡ r
          → Tried env ev d conf whole (relay_address env (answer cs)) after_reply r
          → Outcome (forward_datagram env ev d conf is_dns fd (answer cs) after_reply)
      Tried-Outcome bs cs none g e t = absurd t
      Tried-Outcome bs cs (some (none, z)) g e (u, same, quiet) =
          let e' = e ∙ ap (λ k. some (none, k)) same in
          rw (gave_up env ev d conf is_dns ip port target fits fd (answer cs) after_reply u e')
            (not_sent bs cs _ g (e', (u, refl, quiet)))
      Tried-Outcome bs cs (some (some relay_fd, z)) g e (u, same, out) =
          let e' = e ∙ ap (λ k. some (some relay_fd, k)) same in
          rw
            (forwarded env ev d conf is_dns ip port target fits fd (answer cs) after_reply relay_fd
              u e')
            (passed_on bs cs _ g (relay_fd, pbuf_freed ∷ u, refl, out))

      by_reply :
          (bs : Bytes)
          → the_choice ≡ some bs
          → method_chosen (fill method_request bs) ≡ true
          → Outcome (associate env ev d conf is_dns fd y)
      by_reply bs e m = elim (Option-cases the_reply) [
        | inl r ↦
            rw (no_reply env ev d conf is_dns ip port target fits fd y bs e m r)
              (unread_reply bs e m r)
        | inr (cs, r) ↦ elim (Bool-cases (version_ok (answer cs))) [
          | inr v ↦
              rw (not_agreed env ev d conf is_dns ip port target fits fd y bs e m cs r v)
                (other_version bs cs e m r v)
          | inl v ↦ rw (agreed env ev d conf is_dns ip port target fits fd y bs e m cs r v) (
              Tried-Outcome bs cs _ (e, m, r, v) refl
                (send_datagram-Tried env ev d conf whole (relay_address env (answer cs))
                  after_reply))
        ]
      ]

      associate-Outcome : Outcome (associate env ev d conf is_dns fd y)
      associate-Outcome = elim (Option-cases the_choice) [
        | inl e ↦ rw (no_choice env ev d conf is_dns ip port target fits fd y e) (unread_choice e)
        | inr (bs, e) ↦ elim (Bool-cases (method_chosen (fill method_request bs))) [
          | inr m ↦
              rw (refused env ev d conf is_dns ip port target fits fd y bs e m)
                (other_method bs e m)
          | inl m ↦ by_reply bs e m
        ]
      ]

      outcome :
          (r : Option (Unit {0} × Exchange))
          → Outcome r
          → (x' : Exchange) × (r ≡ some (tt, x')) × Passed x'
      outcome none o = absurd o
      outcome (some (tt', x')) o = (x', refl, o)

    module _ (host server_port : Bytes) (x : Exchange) where
      -- `socks5_connect` gave `fd?` after the calls `u`, none of which sent a datagram.
      abbrev pub Asked : Option ℕ → Trace → Type 0
      Asked fd? u =
          (socks5_connect env host server_port x.trace ≡ some (fd?, u))
          × (datagrams u ≡ datagrams x.trace)

      -- There is no connection, and nothing happens; or there is one, and it goes on from there.
      abbrev pub Handled : Option ℕ → Trace → Exchange → Type 0
      Handled none u x' = x' ≡ record x { trace = u }
      Handled (some fd) u x' = Passed fd (record x { trace = u }) x'

      no_server :
          (u : Trace)
          → connect_socks env ev d conf x ≡ some (none, record x { trace = u })
          → relay_datagram env ev d conf is_dns x ≡ some (tt, record x { trace = u })
      unfolding relay_datagram
      no_server u e = ground arith

      with_server :
          (fd : ℕ) (u : Trace)
          → connect_socks env ev d conf x ≡ some (some fd, record x { trace = u })
          → relay_datagram env ev d conf is_dns x
            ≡ associate env ev d conf is_dns fd (record x { trace = u })
      unfolding relay_datagram
      with_server fd u e = ground arith

      by_server :
          (fd? : Option ℕ) (u : Trace)
          → connect_socks env ev d conf x ≡ some (fd?, record x { trace = u })
          → (x' : Exchange) × (relay_datagram env ev d conf is_dns x ≡ some (tt, x'))
            × Handled fd? u x'
      by_server none u e = (_, no_server u e, refl)
      by_server (some fd) u e =
          let y : Exchange = record x { trace = u } in
          let (x', ran, how) = outcome fd y _ (associate-Outcome fd y) in
          (x', with_server fd u e ∙ ran, how)

      -- A datagram of at most 1504 bytes, with a target that `inet_aton` reads and with a server in
      -- the configuration, is handled without a fault, whatever the kernel and the servers answer.
      -- If `socks5_connect` gives no positive descriptor, nothing else is done. Else nothing is
      -- sent and no exchange begins just where the server's choice is not read or does not leave 5
      -- 0 in the buffer, where its reply is not read or does not leave a 5 in front, or where the
      -- socket for the datagram does not send; a short answer keeps what the buffer held. Otherwise
      -- just one datagram was sent, the header for the target and the whole payload, to the address
      -- in the buffer, and the exchange waits for its answer.
      pub relay_datagram-Passed :
          conf.socks_server ≡ some host
          → conf.socks_port ≡ some server_port
          → (fd? : Option ℕ) × (u : Trace) × Asked fd? u
            × ((x' : Exchange) × (relay_datagram env ev d conf is_dns x ≡ some (tt, x'))
                × Handled (kept env ev d conf fd?) u x')
      relay_datagram-Passed a b =
          let (fd?, u, e, same) = connect-Quiet env host server_port x.trace in
          (
            fd?,
            u,
            (e, same),
            by_server (kept env ev d conf fd?) u
                (connected env ev d conf host server_port fd? x u a b e),
          )
