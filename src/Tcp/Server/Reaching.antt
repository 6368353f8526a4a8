-- ===== src/Tcp/Server/Reaching.antt =====
-- What holds of all connections of src/tcp_raw.cpp in whatever order they are accepted and called.
use mathlib.Core.Path.{subst}
use ip2socks.Common.{
  ℕ, ◌<◌, ◌≡◌, ◌⊎◌, ◌∙◌, sym, ap, refl, inl, inr, Option, none, some, List, [], ◌∷◌, ◌++◌, All,
}
use ip2socks.System.{Env, LwipErr, stream}
use ip2socks.Tcp.State.{TcpRawState, World, Ev, EvLaws}
use ip2socks.Tcp.Accept.{NewPcb, SocksServer, new_es, tcp_raw_accept}
use ip2socks.Tcp.Accepting.{Refused, Relaying, Outcome, tcp_raw_accept-Outcome, closes}
use ip2socks.Tcp.Events.{Input, deliver}
use ip2socks.Tcp.Flows.{down_in, up_out}
use ip2socks.Tcp.Invariant.{IsGone, IsValid, Valid, Ends}
use ip2socks.Tcp.Relay.{ended_world}
use ip2socks.Tcp.Safety.{Fits, deliver-IsValid, deliver_gone}
use ip2socks.Tcp.Owning.{pcb_closes, Owns, Owned}
use ip2socks.Tcp.Owning.Runs.{deliver-Owned, started-Owns}
use ip2socks.Tcp.Server.{
  Conn, unaccepted, Fresh, Step, refused, accepted, called, Reached, begin, onwards,
}
use ip2socks.Tcp.Server.Sockets.{accepted_socket}
use ip2socks.Tcp.Server.Conns.{
  IsSound, Distinct, IsLater, All-middle, All-each, All-at, Distinct-middle,
}

module _ {ev : Ev} (laws : EvLaws ev) where
  module _ (env : Env) (k : Conn) (i : Input) (w : World) (fits : Fits i)
      (e : deliver env ev k.pcb i k.world ≡ some (tt, w)) (s : IsSound k) where
    called-IsSound : IsSound (record k { world = w })
    called-IsSound = record {
      positive = s.positive;
      valid = subst (Ends (IsValid (down_in k.shaken) (up_out k.shaken) k.pcb)) e (
          deliver-IsValid env laws (down_in k.shaken) (up_out k.shaken) k.pcb i k.world fits
            s.valid);
      owns = subst (Owned k.pcb k.fd (closes k.shaken) (pcb_closes k.shaken)) e (
          deliver-Owned k.pcb k.fd (closes k.shaken) (pcb_closes k.shaken) env ev s.positive i
            k.world s.owns);
    }

    Valid-IsGone :
        (es : Option TcpRawState)
        → Valid
            (down_in k.shaken)
            (up_out k.shaken)
            k.pcb
            es
            k.world.loop
            k.world.hooks
            k.world.trace
        → es ≡ none
        → IsGone k.world.loop k.world.hooks
    Valid-IsGone none v n = v.0
    Valid-IsGone (some c) v n = cc

    called-IsLater : IsLater k (record k { world = w })
    called-IsLater = record {
      same_fd = refl;
      stays_gone = λ n.
          let same =
            sym e
            ∙ deliver_gone env laws (down_in k.shaken) (up_out k.shaken) k.pcb i k.world
                (Valid-IsGone k.world.es s.valid n) in
          let equal : w.es ≡ k.world.es = ap (es_of k.world) same in equal ∙ n;
    }
      where
        es_of : World → Option (Unit {0} × World) → Option TcpRawState
        es_of v none = v.es
        es_of v (some (a, u)) = u.es

  module _ (ks : List Conn) (env : Env) (conf : SocksServer) (new : NewPcb) (r : LwipErr)
      (w : World) (c : TcpRawState) (live : w.es ≡ some c) where
    abbrev newcomer : Conn
    newcomer = record { pcb = new.pcb; fd = c.socks_fd; shaken = w.trace; world = w }

    abbrev fd_of : Option TcpRawState → ℕ
    fd_of none = 0
    fd_of (some d) = d.socks_fd

    own_fd : (fd : ℕ) → w.es ≡ some (new_es new.pcb fd) → fd ≡ c.socks_fd
    unfolding new_es
    own_fd fd e = ap fd_of (sym e ∙ live)

    Relaying-IsSound : Relaying env laws new.pcb unaccepted r w → IsSound newcomer
    Relaying-IsSound (ok, (fd, pos, u, same), v) =
        let mine : fd ≡ c.socks_fd = own_fd fd (ap (λ x. x.es) same) in
        let owned =
          subst (λ x. Owns new.pcb fd (closes x.trace) (pcb_closes x.trace) x) (sym same)
            (started-Owns env laws new.pcb fd pos (record unaccepted { trace = u })) in
        record {
          positive = subst (λ x. 0 < x) mine pos;
          valid = v;
          owns = subst (λ x. Owns new.pcb x (closes w.trace) (pcb_closes w.trace) w) mine owned;
        }

    -- A handler that refused left no connection.
    not-Refused : Refused unaccepted r w → ⊥
    not-Refused (wrong, (u, same, q)) = let gone : w.es ≡ none = ap (λ x. x.es) same in cc

    accepted_as :
        Refused unaccepted r w ⊎ Relaying env laws new.pcb unaccepted r w
        → Relaying env laws new.pcb unaccepted r w
    accepted_as (inl h) = absurd (not-Refused h)
    accepted_as (inr h) = h

    module _ (e : LwipErr)
        (ran : tcp_raw_accept env ev conf (some new) e unaccepted ≡ some (r, w)) where
      accepted-Relaying : Relaying env laws new.pcb unaccepted r w
      accepted-Relaying = accepted_as (
          subst (Outcome env laws new.pcb unaccepted) ran
            (tcp_raw_accept-Outcome env laws conf unaccepted new e refl refl))

      accepted-IsSound : IsSound newcomer
      accepted-IsSound = Relaying-IsSound accepted-Relaying

      own_socket : env.socket [] stream ≡ some c.socks_fd
      own_socket =
          accepted_socket env ev conf new e unaccepted w
            (ran ∙ ap (λ x. some (x, w)) accepted-Relaying.0) c live

      accepted-Distinct : Fresh env ks → Distinct ks → Distinct (newcomer ∷ ks)
      accepted-Distinct fresh d =
          (All-each (λ k free. inr free) ks (fresh c.socks_fd own_socket), d)

  -- All connections are sound, and no two live ones share a descriptor.
  abbrev pub IsSafe : List Conn → Type 0
  IsSafe ks = All IsSound ks × Distinct ks

  step-IsSafe : {ks js : List Conn} → Step ev ks js → IsSafe ks → IsSafe js
  step-IsSafe (refused ks env conf new e r w ran gone) h = h
  step-IsSafe (accepted ks env conf new e r w c ran live fresh) h = (
    (accepted-IsSound ks env conf new r w c live e ran, h.0),
    accepted-Distinct ks env conf new r w c live e ran fresh h.1,
  )
  step-IsSafe (called before after k env i w fits ran) h =
      let sound = All-at IsSound before after k h.0 in
      let later = called-IsLater env k i w fits ran sound in
      (
        All-middle IsSound before after k (record k { world = w })
            (called-IsSound env k i w fits ran) h.0,
        Distinct-middle later before after h.1,
      )

  Reached-IsSafe : {ks : List Conn} → Reached ev ks → IsSafe ks
  Reached-IsSafe begin = (tt, tt)
  Reached-IsSafe (onwards before s) = step-IsSafe s (Reached-IsSafe before)

  -- In every state that is reached, in whatever order connections were accepted and called, with
  -- payloads shorter than 2 ^ 16 bytes and a `socket` that gives no descriptor in use, every
  -- callback on any of the connections ends without a fault, whatever its environment. In the state
  -- that it leaves, all connections hold the invariants since they were accepted, bytes in order
  -- and sockets closed once, and no two live ones have the same descriptor.
  pub serves_all :
      (before after : List Conn) (k : Conn) (env : Env) (i : Input)
      → Reached ev (before ++ (k ∷ after))
      → Fits i
      → (w : World) × (deliver env ev k.pcb i k.world ≡ some (tt, w))
        × IsSafe (before ++ (record k { world = w } ∷ after))
  serves_all before after k env i h fits =
      let safe = Reached-IsSafe h in
      let sound = All-at IsSound before after k safe.0 in
      let (w, ran, v) =
        ended_world (IsValid (down_in k.shaken) (up_out k.shaken) k.pcb)
          (deliver env ev k.pcb i k.world)
          (deliver-IsValid env laws (down_in k.shaken) (up_out k.shaken) k.pcb i k.world fits
            sound.valid) in
      (w, ran, step-IsSafe (called before after k env i w fits ran) safe)
