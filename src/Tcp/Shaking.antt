-- ===== src/Tcp/Shaking.antt =====
-- What `tcp_raw_accept` of src/tcp_raw.cpp hears from the SOCKS5 server, and the calls for it.
use ip2socks.Common.{
  ℕ, ◌≡◌, Bool, true, false, Option, none, some, List, [], ◌∷◌, arith, Bytes, ltb,
}
use ip2socks.Numbers.{decimal}
use ip2socks.System.{Env, Trace, closed}
use ip2socks.Socks5.{
  socks5_sockset, socks5_connect, socks5_auth, send_request, await_reply, aton_fresh,
}
use ip2socks.Tcp.State.{Ev, World}
use ip2socks.Tcp.Flows.{up_in, down_out}
use ip2socks.Tcp.Accept.{NewPcb, SocksServer, handshake}

-- The descriptors that `close` was called on, the last one first.
abbrev pub closes : Trace → List ℕ
closes [] = []
closes (closed fd ∷ t) = fd ∷ closes t
closes (e ∷ t) = closes t

-- The calls from one trace to the other moved no byte of the connection and closed nothing.
abbrev pub Quiet : Trace → Trace → Type 0
Quiet t u = (up_in u ≡ up_in t) × (down_out u ≡ down_out t) × (closes u ≡ closes t)

-- The command ends without a fault and moves no byte.
abbrev pub Calm : {A : Type 0} → Trace → Option (A × Trace) → Type 0
Calm t none = ⊥
Calm t (some (a, u)) = Quiet t u

module _ (env : Env) where
  pub connect-Calm : (host port : Bytes) (t : Trace) → Calm t (socks5_connect env host port t)
  unfolding socks5_connect socks5_sockset
  connect-Calm host port t = ground arith

  pub auth-Calm :
      (fd : ℕ) (host port : Bytes) (cmd : ℕ) (t : Trace)
      → Calm t (socks5_auth env fd host port cmd 1 t)
  unfolding socks5_auth send_request await_reply aton_fresh
  auth-Calm fd host port cmd t = ground arith

module _ (env : Env) (ev : Ev) (conf : SocksServer) (new : NewPcb) (w : World) where
  abbrev pub ask : Option (Option ℕ × Trace)
  ask = socks5_connect env conf.socks_server conf.socks_port w.trace

  abbrev pub log_in : ℕ → Trace → Option (Bool × Trace)
  log_in fd u = socks5_auth env fd (env.inet_ntop new.local_ip) (decimal new.local_port) 1 1 u

  pub unconnected :
      (u : Trace)
      → ask ≡ some (none, u)
      → handshake env ev conf new w ≡ some (none, record w { trace = u })
  unfolding handshake
  unconnected u e = ground arith

  pub no_fd :
      (fd : ℕ) (u : Trace)
      → ask ≡ some (some fd, u)
      → ltb fd 1 ≡ true
      → handshake env ev conf new w ≡ some (none, record w { trace = u })
  unfolding handshake
  no_fd fd u e z = ground arith

  pub denied :
      (fd : ℕ) (u v : Trace)
      → ask ≡ some (some fd, u)
      → ltb fd 1 ≡ false
      → log_in fd u ≡ some (false, v)
      → handshake env ev conf new w ≡ some (none, record w { trace = v })
  unfolding handshake
  denied fd u v e z a = ground arith

  pub granted :
      (fd : ℕ) (u v : Trace)
      → ask ≡ some (some fd, u)
      → ltb fd 1 ≡ false
      → log_in fd u ≡ some (true, v)
      → handshake env ev conf new w ≡ some (some fd, record w { trace = v })
  unfolding handshake
  granted fd u v e z a = ground arith
