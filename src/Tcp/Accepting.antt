-- ===== src/Tcp/Accepting.antt =====
-- What `tcp_raw_accept` of src/tcp_raw.cpp leaves behind, on each of its paths.
use ip2socks.Common.{
  ℕ, zero, suc, ◌<◌, ◌≡◌, ◌≢◌, ◌⊎◌, inl, inr, refl, ◌∙◌, Bool, true, false, Option, none, some, [],
  arith, ltb,
}
use ip2socks.System.{Env, Trace, Pcb, LwipErr, err_ok, err_mem, err_code}
use ip2socks.Socks5.{socks5_connect}
use ip2socks.Tcp.State.{Ev, EvLaws, World}
use ip2socks.Tcp.Flows.{up_in, down_out, down_in, up_out}
use ip2socks.Tcp.Accept.{NewPcb, SocksServer, handshake, tcp_raw_accept, start_relay}
use ip2socks.Tcp.Safety.{started, start_relay_run, started-IsValid}
use ip2socks.Tcp.Invariant.{IsValid}
pub use ip2socks.Tcp.Shaking.{closes}
use ip2socks.Tcp.Shaking.{
  Quiet, Calm, connect-Calm, auth-Calm, ask, log_in, unconnected, no_fd, denied, granted,
}

pub positive : (n : ℕ) → 0 < suc n
positive n = omega arith

-- The handler refused the connection: no memory, no watcher and no callback is left behind, and no
-- descriptor is closed.
abbrev pub Refused : World → LwipErr → World → Type 0
Refused w r w' = (r ≢ err_ok) × ((u : Trace) × (w' ≡ record w { trace = u }) × Quiet w.trace u)

module _ (env : Env) {ev : Ev} (laws : EvLaws ev) where
  -- The handler returned `ERR_OK`, and left the connection as `started` describes it, valid.
  abbrev pub Relaying : Pcb → World → LwipErr → World → Type 0
  Relaying pcb w r w' =
      (r ≡ err_ok)
      × ((fd : ℕ) × (pos : 0 < fd) × (u : Trace) × (w'
            ≡ started env laws pcb fd pos (record w { trace = u })))
      × IsValid (down_in w'.trace) (up_out w'.trace) pcb w'

  abbrev pub Outcome : Pcb → World → Option (LwipErr × World) → Type 0
  Outcome pcb w none = ⊥
  Outcome pcb w (some (r, w')) = Refused w r w' ⊎ Relaying pcb w r w'

  module _ (conf : SocksServer) (new : NewPcb) (w : World) where
    refused_run :
        (u : World)
        → handshake env ev conf new w ≡ some (none, u)
        → tcp_raw_accept env ev conf (some new) err_ok w ≡ some (err_mem, u)
    unfolding tcp_raw_accept
    refused_run u e = ground arith

    relaying_run :
        (fd : ℕ) (u : World)
        → handshake env ev conf new w ≡ some (some fd, u)
        → tcp_raw_accept env ev conf (some new) err_ok w ≡ start_relay env ev new.pcb fd u
    unfolding tcp_raw_accept
    relaying_run fd u e = ground arith

    -- What `socks5_auth` leads to: a refusal, or a valid connection as `started` describes it.
    abbrev pub Authed : (fd : ℕ) → 0 < fd → Bool → Trace → LwipErr → World → Type 0
    Authed fd pos false v r w' = (r ≡ err_mem) × (w' ≡ record w { trace = v })
    Authed fd pos true v r w' =
        (r ≡ err_ok)
        × (w' ≡ started env laws new.pcb fd pos (record w { trace = v }))
        × IsValid (down_in w'.trace) (up_out w'.trace) new.pcb w'

    -- What `socks5_connect` leads to: a refusal without a positive descriptor, else `socks5_auth`
    -- for the address and the port that the pcb has as its own.
    abbrev pub Connected : Option ℕ → Trace → LwipErr → World → Type 0
    Connected none u r w' = (r ≡ err_mem) × (w' ≡ record w { trace = u })
    Connected (some zero) u r w' = (r ≡ err_mem) × (w' ≡ record w { trace = u })
    Connected (some (suc fd)) u r w' =
        (g : Bool) × (v : Trace) × (log_in env ev conf new w (suc fd) u ≡ some (g, v))
        × Quiet w.trace v
        × Authed (suc fd) (positive fd) g v r w'

    abbrev Ends : (LwipErr → World → Type 0) → Option (LwipErr × World) → Type 0
    Ends P r = (x : LwipErr) × (w' : World) × (r ≡ some (x, w')) × P x w'

    module _ (no_up : up_in w.trace ≡ []) (no_down : down_out w.trace ≡ []) where
      authed :
          (fd : ℕ) (pos : 0 < fd) (g : Bool) (u v : Trace)
          → ask env ev conf new w ≡ some (some fd, u)
          → ltb fd 1 ≡ false
          → log_in env ev conf new w fd u ≡ some (g, v)
          → Quiet w.trace v
          → Ends (Authed fd pos g v) (tcp_raw_accept env ev conf (some new) err_ok w)
      authed fd pos false u v e p a q =
          (err_mem, _, refused_run _ (denied env ev conf new w fd u v e p a), (refl, refl))
      authed fd pos true u v e p a q =
          let w1 : World = record w { trace = v } in
          (
            err_ok,
            _,
            relaying_run fd w1 (granted env ev conf new w fd u v e p a)
                ∙ start_relay_run env laws new.pcb fd pos w1,
            (refl, refl, started-IsValid env laws new.pcb fd pos w1 (q.0 ∙ no_up) (q.1 ∙ no_down)),
          )

      calmed :
          (fd : ℕ) (u : Trace) (r : Option (Bool × Trace))
          → ask env ev conf new w ≡ some (some (suc fd), u)
          → Quiet w.trace u
          → log_in env ev conf new w (suc fd) u ≡ r
          → Calm u r
          → Ends (Connected (some (suc fd)) u) (tcp_raw_accept env ev conf (some new) err_ok w)
      calmed fd u none e q a calm = absurd calm
      calmed fd u (some (g, v)) e q a calm =
          let quiet : Quiet w.trace v = (calm.0 ∙ q.0, calm.1 ∙ q.1, calm.2 ∙ q.2) in
          let (x, w', ran, how) = authed (suc fd) (positive fd) g u v e (ground arith) a quiet in
          (x, w', ran, (g, v, a, quiet, how))

      connected :
          (fd? : Option ℕ) (u : Trace)
          → ask env ev conf new w ≡ some (fd?, u)
          → Quiet w.trace u
          → Ends (Connected fd? u) (tcp_raw_accept env ev conf (some new) err_ok w)
      connected none u e q =
          (err_mem, _, refused_run _ (unconnected env ev conf new w u e), (refl, refl))
      connected (some zero) u e q =
          (err_mem, _, refused_run _ (no_fd env ev conf new w 0 u e refl), (refl, refl))
      connected (some (suc fd)) u e q = calmed fd u _ e q refl (auth-Calm env (suc fd) _ _ 1 u)

      asked :
          (r : Option (Option ℕ × Trace))
          → ask env ev conf new w ≡ r
          → Calm w.trace r
          → Ends
              (λ x w'.
                (fd? : Option ℕ) × (u : Trace) × (ask env ev conf new w ≡ some (fd?, u))
                × Quiet w.trace u
                × Connected fd? u x w')
              (tcp_raw_accept env ev conf (some new) err_ok w)
      asked none e calm = absurd calm
      asked (some (fd?, u)) e q =
          let (x, w', ran, how) = connected fd? u e q in (x, w', ran, (fd?, u, e, q, how))

  module _ (conf : SocksServer) (w : World) where
    -- All that the handler does, by what it is given and what the SOCKS5 server answers.
    abbrev pub Answered : Option NewPcb → LwipErr → LwipErr → World → Type 0
    Answered none e r w' = (r ≡ err_code 6) × (w' ≡ w)
    Answered (some new) err_mem r w' = (r ≡ err_code 6) × (w' ≡ w)
    Answered (some new) (err_code n) r w' = (r ≡ err_code 6) × (w' ≡ w)
    Answered (some new) err_ok r w' =
        (fd? : Option ℕ) × (u : Trace) × (socks5_connect env conf.socks_server conf.socks_port
            w.trace
          ≡ some (fd?, u))
        × Quiet w.trace u
        × Connected conf new w fd? u r w'

    -- In a world whose trace moved no byte of a connection, `tcp_raw_accept` returns, for every
    -- pcb, NULL included, every error, and every peer and SOCKS5 server. A NULL pcb or an error
    -- gives `ERR_VAL` and changes nothing. Else `socks5_connect` is called, and if it gives no
    -- positive descriptor the result is -1 and only the trace changes; if it does, `socks5_auth`
    -- decides: where it refuses the result is -1, and again only the trace changes, in which no
    -- descriptor is closed; where it accepts the result is `ERR_OK`, and a valid connection is left
    -- on that descriptor, with its watchers and callbacks registered.
    pub tcp_raw_accept_lem :
        (new? : Option NewPcb) (e : LwipErr)
        → up_in w.trace ≡ []
        → down_out w.trace ≡ []
        → (r : LwipErr) × (w' : World) × (tcp_raw_accept env ev conf new? e w ≡ some (r, w'))
          × Answered new? e r w'
    unfolding tcp_raw_accept
    tcp_raw_accept_lem none e no_up no_down = (_, _, refl, (refl, refl))
    tcp_raw_accept_lem (some new) err_mem no_up no_down = (_, _, refl, (refl, refl))
    tcp_raw_accept_lem (some new) (err_code n) no_up no_down = (_, _, refl, (refl, refl))
    tcp_raw_accept_lem (some new) err_ok no_up no_down =
        asked conf new w no_up no_down _ refl (connect-Calm env _ _ _)

    -- A refusal, whatever its reason, or a connection.
    module _ (new : NewPcb) where
      by_auth :
          (fd : ℕ) (pos : 0 < fd) (g : Bool) (v : Trace) (r : LwipErr) (w' : World)
          → Quiet w.trace v
          → Authed conf new w fd pos g v r w'
          → Refused w r w' ⊎ Relaying new.pcb w r w'
      by_auth fd pos false v r w' q (x, same) = inl ((λ ok. cc (ok, x)), (v, same, q))
      by_auth fd pos true v r w' q (x, same, valid) = inr (x, (fd, pos, v, same), valid)

      by_connect :
          (fd? : Option ℕ) (u : Trace) (r : LwipErr) (w' : World)
          → Quiet w.trace u
          → Connected conf new w fd? u r w'
          → Refused w r w' ⊎ Relaying new.pcb w r w'
      by_connect none u r w' q (x, same) = inl ((λ ok. cc (ok, x)), (u, same, q))
      by_connect (some zero) u r w' q (x, same) = inl ((λ ok. cc (ok, x)), (u, same, q))
      by_connect (some (suc fd)) u r w' q (g, v, a, q', how) =
          by_auth (suc fd) (positive fd) g v r w' q' how

      by_error :
          (e r : LwipErr) (w' : World)
          → Answered (some new) e r w'
          → Refused w r w' ⊎ Relaying new.pcb w r w'
      by_error err_ok r w' (fd?, u, e, q, how) = by_connect fd? u r w' q how
      by_error err_mem r w' (x, same) =
          inl ((λ ok. cc (ok, x)), (w.trace, same, (refl, refl, refl)))
      by_error (err_code n) r w' (x, same) =
          inl ((λ ok. cc (ok, x)), (w.trace, same, (refl, refl, refl)))

      pub tcp_raw_accept-Outcome :
          (e : LwipErr)
          → up_in w.trace ≡ []
          → down_out w.trace ≡ []
          → Outcome new.pcb w (tcp_raw_accept env ev conf (some new) e w)
      tcp_raw_accept-Outcome e no_up no_down =
          let (r, w', ran, how) = tcp_raw_accept_lem (some new) e no_up no_down in
          rw ran (by_error e r w' how)
