-- ===== src/Udp/Lifetime.antt =====
-- What becomes of an exchange of src/udp_raw.cpp over every sequence of events.
use ip2socks.Common.{
  ℕ, ◌≡◌, ◌⊎◌, inl, inr, refl, ap, ◌∙◌, Bool, true, false, Option, none, some, List, [], ◌∷◌, ◌++◌,
  Bytes, arith,
}
use ip2socks.System.{Ip4, Env, Trace, Pcb, at_most}
use ip2socks.Tcp.State.{Ev, EvLaws, Timer}
use ip2socks.Tcp.Accepting.{closes}
use ip2socks.Udp.{
  UdpRawState, Handler, udp_socks_relay, tcp_dns, dns_relay, Exchange, udp_timeout_cb,
}
use ip2socks.Udp.Replies.{
  room, header, replies, shut, HasPbufs, IsOver, reply_to, Long, answered, live, freed-Answered,
  callback-IsOver,
}
use ip2socks.Udp.Events.{Firing, answer_readable, query_timeout, deliver, run}

abbrev Reply : Type 0
Reply = Pcb × Bytes × Ip4 × ℕ

-- Nothing, or one reply to the datagram that the exchange began with.
abbrev pub AtMostOne : Env → UdpRawState → List Reply → Type 0
AtMostOne env c rs =
    (rs ≡ [])
    ⊎ ((payload : Bytes) × (rs ≡ (c.pcb, payload, env.inet_addr c.addr_ip, c.udp_port) ∷ []))

-- The socket that the exchange waited on, once, and nothing else but, for a datagram of the SOCKS5
-- server, the connection to it, once, before.
abbrev pub ShutOnce : UdpRawState → Handler → ℕ → List ℕ → Type 0
ShutOnce c h fd ds = (ds ≡ fd ∷ []) ⊎ ((h ≡ udp_socks_relay) × (ds ≡ fd ∷ c.socks_tcp_fd ∷ []))

shut-ShutOnce :
    (c : UdpRawState) (h : Handler) (fd : ℕ) (r : Option Bytes) → ShutOnce c h fd (shut h c fd r)
shut-ShutOnce c h fd none = inl refl
shut-ShutOnce c h fd (some []) = inl refl
shut-ShutOnce c udp_socks_relay fd (some (b ∷ bs)) = inr (refl, refl)
shut-ShutOnce c tcp_dns fd (some (b ∷ bs)) = inl refl
shut-ShutOnce c dns_relay fd (some (b ∷ bs)) = inl refl

one :
    (env : Env) (c : UdpRawState) (n : ℕ) (r : Option Bytes) → AtMostOne env c (reply_to env c n r)
one env c n none = inl refl
one env c n (some []) = inl refl
one env c n (some (b ∷ bs)) = inr (_, refl)

module _ (env : Env) {ev : Ev} (laws : EvLaws ev) where
  -- No answer of the socket is shorter than its header.
  abbrev pub Headed : Handler → ℕ → Type 0
  Headed h fd = (t : Trace) → Long env (header h) (at_most (room h) (env.recv t fd))

  over_step : (i : Firing) (x : Exchange) → IsOver x → deliver env ev i x ≡ some (tt, x)
  unfolding deliver
  over_step answer_readable x o = ground (arith, o.io_off)
  over_step query_timeout x o = ground (arith, o.timeout_off)

  -- Once an exchange is over nothing happens.
  pub run_over : (is : List Firing) (x : Exchange) → IsOver x → run env ev is x ≡ some (tt, x)
  unfolding run
  run_over [] x o = refl
  run_over (i ∷ is) x o = rw (over_step i x o, run) (run_over is x o)

  module _ (memory : HasPbufs env) (c : UdpRawState) (h : Handler) (fd : ℕ)
      (headed : Headed h fd) where
    -- The exchange has ended with its sockets closed, and with at most one reply.
    abbrev Done : Trace → Exchange → Type 0
    Done t x =
        IsOver x
        × ((ds : List ℕ) × (closes x.trace ≡ ds ++ closes t) × ShutOnce c h fd ds)
        × ((rs : List Reply) × (replies x.trace ≡ rs ++ replies t) × AtMostOne env c rs)

    abbrev Step : Firing → Exchange → Type 0
    Step i x = (x' : Exchange) × (deliver env ev i x ≡ some (tt, x')) × ((x' ≡ x) ⊎ Done x.trace x')

    readable-Step :
        (io : Bool) (timer : Timer) (t : Trace)
        → Step answer_readable (live env laws c h io fd timer t)
    unfolding deliver
    readable-Step false timer t = (_, refl, inl refl)
    readable-Step true timer t =
        let (x', e, over, closed', same) =
          callback-IsOver env laws memory h c true fd timer t (headed t) in
        (x', e, inr (over, (_, closed', shut-ShutOnce c h fd _), (_, same, one env c (header h) _)))

    timeout-Step :
        (io : Bool) (active : Bool) (repeat : ℕ) (t : Trace)
        → Step query_timeout
            (live env laws c h io fd (record { active = active; repeat = repeat }) t)
    unfolding deliver udp_timeout_cb
    timeout-Step io false repeat t = (_, refl, inl refl)
    timeout-Step io true repeat t =
        let timer = ev.timer_stop (record { active = true; repeat = repeat }) in
        let (x', e, over, closed', same) =
          answered env laws _ _ _ (freed-Answered env laws c h io fd timer t) in
        (x', e, inr (over, (_, closed', inl refl), ([], same, inl refl)))

    step :
        (i : Firing) (io : Bool) (timer : Timer) (t : Trace)
        → Step i (live env laws c h io fd timer t)
    step answer_readable io timer t = readable-Step io timer t
    step query_timeout io timer t = timeout-Step io timer.active timer.repeat t

    abbrev Lived : List Firing → Exchange → Type 0
    Lived is x = (x' : Exchange) × (run env ev is x ≡ some (tt, x')) × ((x' ≡ x) ⊎ Done x.trace x')

    next :
        (i : Firing) (is : List Firing) (x x' : Exchange)
        → deliver env ev i x ≡ some (tt, x')
        → run env ev (i ∷ is) x ≡ run env ev is x'
    unfolding run
    next i is x x' e = rw (e, run)

    after-Step :
        (i : Firing) (is : List Firing) (x : Exchange) → Step i x → Lived is x → Lived (i ∷ is) x
    after-Step i is x (x1, e, inl same) (x2, ran, how) =
        (x2, next i is x x1 e ∙ ap (run env ev is) same ∙ ran, how)
    after-Step i is x (x1, e, inr done) (x2, ran, how) =
        (x1, next i is x x1 e ∙ run_over is x1 done.0, inr done)

    lived :
        (is : List Firing) (io : Bool) (timer : Timer) (t : Trace)
        → Lived is (live env laws c h io fd timer t)
    unfolding run
    lived [] io timer t = (_, refl, inl refl)
    lived (i ∷ is) io timer t = after-Step i is _ (step i io timer t) (lived is io timer t)

    -- Over every sequence of a readable socket and an expired timer, as long as the stack has memory
    -- for every `pbuf` and no answer is shorter than its header, a live exchange runs without a
    -- fault. At the end it is as it was, or it is over: it has closed the socket that it waited on,
    -- once, and nothing else but, if that is the datagram socket of the SOCKS5 server, possibly the
    -- connection to it, and it has sent nothing back, or one reply, to the address and port that the
    -- datagram came from; once it is over, no later event changes anything.
    pub run-AtMostOne :
        (is later : List Firing) (io : Bool) (timer : Timer) (t : Trace)
        → let x = live env laws c h io fd timer t in
          (x' : Exchange) × (run env ev is x ≡ some (tt, x'))
          × ((x' ≡ x)
              ⊎ (((ds : List ℕ) × (closes x'.trace ≡ ds ++ closes t) × ShutOnce c h fd ds)
                  × ((rs : List Reply) × (replies x'.trace ≡ rs ++ replies t) × AtMostOne env c rs)
                  × IsOver x'
                  × (run env ev later x' ≡ some (tt, x'))))
    run-AtMostOne is later io timer t =
        let (x', ran, how) = lived is io timer t in
        elim how [
          | inl same ↦ (x', ran, inl same)
          | inr (over, shut', sent) ↦ (x', ran, inr (shut', sent, over, run_over later x' over))
        ]
