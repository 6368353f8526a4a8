-- ===== src/Tcp/Server/Sockets.antt =====
-- Where the descriptor of an accepted connection comes from.
use mathlib.Core.Path.{subst}
use ip2socks.Common.{ℕ, ◌∙◌, ◌≡◌, Option, none, some, arith, Bytes}
use ip2socks.System.{pure, Env, Trace, LwipErr, err_ok, err_mem, err_code, Pcb, stream}
use ip2socks.Socks5.{socks5_sockset, socks5_connect}
use ip2socks.Tcp.State.{TcpRawState, World, W, Ev}
use ip2socks.Tcp.Accept.{NewPcb, SocksServer, handshake, start_relay, new_es, tcp_raw_accept}

module _ (env : Env) where
  abbrev From : Trace → Option (Option ℕ × Trace) → Type 0
  From t (some (some fd, u)) = env.socket t stream ≡ some fd
  From t _ = Unit {0}

  connect-From : (host port : Bytes) (t : Trace) → From t (socks5_connect env host port t)
  unfolding socks5_connect socks5_sockset
  connect-From host port t = ground arith

  abbrev FromW : World → Option (Option ℕ × World) → Type 0
  FromW w (some (some fd, v)) = env.socket w.trace stream ≡ some fd
  FromW w _ = Unit {0}

  handshake-FromW :
      (ev : Ev) (conf : SocksServer) (new : NewPcb) (w : World)
      → FromW w (handshake env ev conf new w)
  unfolding handshake
  handshake-FromW ev conf new w =
      ground (arith, connect-From conf.socks_server conf.socks_port w.trace)

  -- A connection that was accepted has the descriptor that `socket` gave.
  abbrev Given : World → Option (LwipErr × World) → Type 0
  Given w (some (err_ok, v)) =
      (c : TcpRawState) → v.es ≡ some c → env.socket w.trace stream ≡ some c.socks_fd
  Given w _ = Unit {0}

  abbrev answer : Ev → Pcb → Option ℕ → W LwipErr
  answer ev pcb fd? = elim fd? [ none ↦ pure err_mem | some fd ↦ start_relay env ev pcb fd ]

  relay-Given :
      (ev : Ev) (pcb : Pcb) (w : World) (r : Option (Option ℕ × World))
      → FromW w r
      → Given w (elim r [ none ↦ none | some (fd?, v) ↦ answer ev pcb fd? v ])
  unfolding start_relay new_es
  relay-Given ev pcb w none f = tt
  relay-Given ev pcb w (some (none, v)) f = tt
  relay-Given ev pcb w (some (some fd, v)) f =
      λ c e. let same : some fd ≡ some c.socks_fd = cc in f ∙ same

  accept-Given :
      (ev : Ev) (conf : SocksServer) (new : NewPcb) (e : LwipErr) (w : World)
      → Given w (tcp_raw_accept env ev conf (some new) e w)
  unfolding tcp_raw_accept
  accept-Given ev conf new err_ok w =
      relay-Given ev new.pcb w (handshake env ev conf new w) (handshake-FromW ev conf new w)
  accept-Given ev conf new err_mem w = tt
  accept-Given ev conf new (err_code n) w = tt

  pub accepted_socket :
      (ev : Ev) (conf : SocksServer) (new : NewPcb) (e : LwipErr) (w v : World)
      → tcp_raw_accept env ev conf (some new) e w ≡ some (err_ok, v)
      → (c : TcpRawState) → v.es ≡ some c
      → env.socket w.trace stream ≡ some c.socks_fd
  accepted_socket ev conf new e w v q = subst (Given w) q (accept-Given ev conf new e w)
