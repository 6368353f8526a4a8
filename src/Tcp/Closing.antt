-- ===== src/Tcp/Closing.antt =====
-- The one way in which a connection of src/tcp_raw.cpp ends.
use ip2socks.Common.{ℕ, ◌≡◌, none, some, ◌∷◌, ltb, if◌then◌else◌, arith}
use ip2socks.System.{Trace, closed, tcp_closed, Pcb}
use ip2socks.Tcp.State.{TcpRawState, Timer, Ev, Watchers, conn, Hooks, World}
use ip2socks.Tcp.Close.{no_hooks, detach, stop_watchers, close_es, tcp_raw_free, tcp_raw_close}

-- A world with a live connection.
abbrev pub world : TcpRawState → Watchers → Hooks → Trace → World
world c l h t = record { es = some c; loop = l; hooks = h; trace = t }

-- The trace after `tcp_raw_close` on the pcb that `es` holds: its pcb is closed twice.
abbrev pub closing_trace : Pcb → ℕ → Trace → Trace
closing_trace pcb fd t =
    tcp_closed pcb ∷ (if ltb 0 fd then closed fd ∷ tcp_closed pcb ∷ t else tcp_closed pcb ∷ t)

module _ (ev : Ev) where
  abbrev pub stopped : Timer → Timer
  stopped t = if t.active then ev.timer_stop t else t

  abbrev pub closed_world : Pcb → ℕ → Watchers → Trace → World
  closed_world pcb fd l t = record {
    es = none;
    loop = record {
      io = if ltb 0 fd then ev.io_stop l.io else l.io;
      io_fd = l.io_fd;
      timeout = stopped l.timeout;
      block = stopped l.block;
    };
    hooks = no_hooks;
    trace = closing_trace pcb fd t;
  }

  -- `tcp_raw_close` of a live connection, on the pcb that it holds, ends without a fault: the
  -- memory is freed, every running timer is stopped, the socket, if its descriptor is positive, is
  -- closed and no longer watched, no callback is registered, and the pcb was given to `tcp_close`
  -- twice.
  pub tcp_raw_close_lem :
      (pcb : Pcb) (c : TcpRawState) (l : Watchers) (h : Hooks) (t : Trace)
      → c.pcb ≡ some pcb
      → tcp_raw_close ev (some pcb) conn (world c l h t)
        ≡ some (tt, closed_world pcb c.socks_fd l t)
  unfolding tcp_raw_close detach close_es stop_watchers tcp_raw_free
  tcp_raw_close_lem pcb c l h t mine = ground arith
