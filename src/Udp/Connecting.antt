-- ===== src/Udp/Connecting.antt =====
-- How src/udp_raw.cpp connects to the SOCKS5 server, on the trace of its calls.
use ip2socks.Common.{
  ℕ, ◌%◌, ◌≡◌, refl, ◌∙◌, Bool, true, false, Option, none, some, Bytes, ltb, arith, if◌then◌else◌,
}
use ip2socks.Numbers.{atoi}
use ip2socks.System
use ip2socks.System.{
  Ip4, SockAddr, stream, rcvtimeo, sndtimeo, reuseaddr, Env, Trace, Cmd, pure, ◌>>=◌, received,
  pbuf_freed, at_most,
}
use ip2socks.Socks5.{socks5_sockset, socks5_connect}
use ip2socks.Tcp.State.{Ev}
use ip2socks.Config.{Conf}
use ip2socks.Udp.{Exchange}
use ip2socks.Udp.Wire.{Datagram, text}
use ip2socks.Udp.Query.{connect_socks}
use ip2socks.Udp.Associating.{datagrams}

-- The calls end without a fault and send no datagram.
abbrev pub Quiet : {A : Type 0} → Cmd Trace A → Trace → Type 0
Quiet {A} m t = (a : A) × (u : Trace) × (m t ≡ some (a, u)) × (datagrams u ≡ datagrams t)

bind_run :
    {S A B : Type 0} (m : Cmd S A) (f : A → Cmd S B) (s s' : S) (a : A)
    → m s ≡ some (a, s')
    → (m >>= f) s ≡ f a s'
bind_run m f s s' a e = rw (e, ◌>>=◌)

Quiet-then :
    {A B : Type 0} (m : Cmd Trace A) (f : A → Cmd Trace B) (t : Trace)
    → Quiet m t
    → ((a : A) (u : Trace) → Quiet (f a) u)
    → Quiet (m >>= f) t
Quiet-then m f t (a, u, e, same) next =
    let (b, v, e', same') = next a u in (b, v, bind_run m f t u a e ∙ e', same' ∙ same)

Quiet-if :
    {A : Type 0} (b : Bool) (m k : Cmd Trace A) (t : Trace)
    → Quiet m t
    → Quiet k t
    → Quiet (if b then m else k) t
Quiet-if true m k t q r = q
Quiet-if false m k t q r = r

module _ (env : Env) where
  sockset-Quiet : (fd : ℕ) (t : Trace) → Quiet (socks5_sockset env fd) t
  unfolding socks5_sockset
  sockset-Quiet fd t =
      Quiet-then (System.setsockopt env fd rcvtimeo) _ t (_, _, refl, refl)
        (λ rcv u.
          Quiet-then (if rcv then System.setsockopt env fd sndtimeo else pure false) _ u
            (Quiet-if rcv (System.setsockopt env fd sndtimeo) (pure false) u (_, _, refl, refl)
              (_, _, refl, refl))
            (λ snd v.
              Quiet-if snd (System.setsockopt env fd reuseaddr) (pure false) v (_, _, refl, refl)
                (_, _, refl, refl)))

  -- What `socks5_connect` does with its socket.
  abbrev after_socket : SockAddr → Option ℕ → Cmd Trace (Option ℕ)
  after_socket addr fd? = elim fd? [
    | none ↦ pure none
    | some fd ↦ do
      _ ← socks5_sockset env fd
      done ← System.connect env fd addr
      if done then pure (some fd) else pure none
  ]

  after_socket-Quiet :
      (addr : SockAddr) (fd? : Option ℕ) (t : Trace) → Quiet (after_socket addr fd?) t
  after_socket-Quiet addr none t = (_, _, refl, refl)
  after_socket-Quiet addr (some fd) t =
      Quiet-then (socks5_sockset env fd) _ t (sockset-Quiet fd t) (λ _ v.
        Quiet-then (System.connect env fd addr) _ v (_, _, refl, refl)
          (λ done w.
            Quiet-if done (pure (some fd)) (pure none) w (_, _, refl, refl) (_, _, refl, refl)))

  pub connect-Quiet : (host port : Bytes) (t : Trace) → Quiet (socks5_connect env host port) t
  unfolding socks5_connect
  connect-Quiet host port t =
      let addr : SockAddr = record { ip = env.inet_addr host; port = atoi port % 65536 } in
      Quiet-then (System.socket env stream) (after_socket addr) t (_, _, refl, refl)
        (after_socket-Quiet addr)

module _ (env : Env) (ev : Ev) (d : Datagram) (conf : Conf) where
  -- The descriptor, if it counts as one.
  abbrev pub kept : Option ℕ → Option ℕ
  kept none = none
  kept (some fd) = if ltb fd 1 then none else some fd

  pub connected :
      (host port : Bytes) (fd? : Option ℕ) (x : Exchange) (u : Trace)
      → conf.socks_server ≡ some host
      → conf.socks_port ≡ some port
      → socks5_connect env host port x.trace ≡ some (fd?, u)
      → connect_socks env ev d conf x ≡ some (kept fd?, record x { trace = u })
  unfolding connect_socks text
  connected host port none x u a b e = ground arith
  connected host port (some fd) x u a b e = ground arith
