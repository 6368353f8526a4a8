-- ===== src/Tcp/Server.antt =====
-- src/tcp_raw.cpp with all its connections: `tcp_raw_accept` makes one more, and each callback
-- reaches the connection it was registered for. Between two steps the peers, the kernel and the
-- stack may do anything, so each step has its own environment.
pub mod Sockets
pub mod Conns
pub mod Reaching
use ip2socks.Common.{ℕ, ◌≡◌, ◌≢◌, ◌⊎◌, Option, none, some, List, [], ◌∷◌, ◌++◌, All, false}
use ip2socks.System.{Env, Trace, LwipErr, Pcb, stream}
use ip2socks.Tcp.State.{TcpRawState, World, Ev}
use ip2socks.Tcp.Close.{no_hooks}
use ip2socks.Tcp.Accept.{NewPcb, SocksServer, tcp_raw_accept}
use ip2socks.Tcp.Events.{Input, deliver}
use ip2socks.Tcp.Safety.{Fits}

-- A connection that was accepted, live or gone, with its own calls in the trace of its world, and
-- the calls that were made up to its acceptance.
pub record Conn : Type 0 where
  pub pcb : Pcb
  pub fd : ℕ
  pub shaken : Trace
  pub world : World

-- Nothing is allocated for a connection before it is accepted, and nothing was called for it.
abbrev pub unaccepted : World
unaccepted = record {
  es = none;
  loop = record {
    io = false;
    io_fd = 0;
    timeout = record { active = false; repeat = 0 };
    block = record { active = false; repeat = 0 };
  };
  hooks = no_hooks;
  trace = [];
}

-- The connection is gone, or its socket has another descriptor.
abbrev pub IsFree : ℕ → Conn → Type 0
IsFree fd k = (k.world.es ≡ none) ⊎ (k.fd ≢ fd)

-- `socket` gives no descriptor that is in use.
abbrev pub Fresh : Env → List Conn → Type 0
Fresh env ks = (fd : ℕ) → env.socket [] stream ≡ some fd → All (IsFree fd) ks

pub data Step (ev : Ev) : List Conn → List Conn → Type 0 where
  refused :
      (ks : List Conn) (env : Env) (conf : SocksServer) (new : NewPcb) (e r : LwipErr) (w : World)
      → tcp_raw_accept env ev conf (some new) e unaccepted ≡ some (r, w)
      → w.es ≡ none
      → Step ev ks ks
  accepted :
      (ks : List Conn) (env : Env) (conf : SocksServer) (new : NewPcb) (e r : LwipErr) (w : World)
      (c : TcpRawState)
      → tcp_raw_accept env ev conf (some new) e unaccepted ≡ some (r, w)
      → w.es ≡ some c
      → Fresh env ks
      → Step ev ks (record { pcb = new.pcb; fd = c.socks_fd; shaken = w.trace; world = w } ∷ ks)
  called :
      (before after : List Conn) (k : Conn) (env : Env) (i : Input) (w : World)
      → Fits i
      → deliver env ev k.pcb i k.world ≡ some (tt, w)
      → Step ev (before ++ (k ∷ after)) (before ++ (record k { world = w } ∷ after))

-- What the program can have reached from its start.
pub data Reached (ev : Ev) : List Conn → Type 0 where
  begin : Reached ev []
  onwards : {ks js : List Conn} → Reached ev ks → Step ev ks js → Reached ev js
