-- ===== src/Tcp/Close.antt =====
-- Closing a relayed connection: `tcp_raw_free`, `tcp_raw_close` and `free_all` of src/tcp_raw.cpp.
use ip2socks.Common.{false, Option, none, some, ltb, if◌then◌else◌}
use ip2socks.System.{closed, tcp_closed, Pcb, pure, ◌>>=◌, ◌>>◌, record_event}
use ip2socks.Tcp.State.{
  Ev, Ref, null, conn, Hooks, W, sys, load, store, release, watchers, set_hooks,
}

unfoldable pub close_pcb : Option Pcb → W (Unit {0})
close_pcb none = pure tt
close_pcb (some pcb) = sys (record_event (tcp_closed pcb))

unfoldable pub tcp_raw_free : Ref → W (Unit {0})
unfolding close_pcb
tcp_raw_free null = pure tt
tcp_raw_free conn = do c ← load; close_pcb c.pcb; release

-- No callback is left with lwIP.
abbrev pub no_hooks : Hooks
no_hooks = record { arg = null; recv = false; sent = false; err = false; poll = false }

-- The part of `tcp_raw_close` about `tpcb`.
unfoldable pub detach : Option Pcb → W (Unit {0})
detach none = pure tt
detach (some pcb) = do set_hooks no_hooks; sys (record_event (tcp_closed pcb))

module _ (ev : Ev) where
  abbrev pub io_stop : W (Unit {0})
  io_stop w = some (tt, record w { loop = record (w.loop) { io = ev.io_stop w.loop.io } })

  abbrev pub block_stop : W (Unit {0})
  block_stop w =
      some (tt, record w { loop = record (w.loop) { block = ev.timer_stop w.loop.block } })

  abbrev pub timeout_stop : W (Unit {0})
  timeout_stop w =
      some (tt, record w { loop = record (w.loop) { timeout = ev.timer_stop w.loop.timeout } })

  -- The part of `tcp_raw_close` about `es`, up to `tcp_raw_free`.
  unfoldable pub stop_watchers : W (Unit {0})
  stop_watchers = do
    c ← load
    store (record c { socks_buf_used = 0; buf_used = 0 })
    (if ltb 0 c.socks_fd then (do sys (record_event (closed c.socks_fd)); io_stop) else pure tt)
    l ← watchers
    (if l.block.active then block_stop else pure tt)
    l ← watchers
    if l.timeout.active then timeout_stop else pure tt

  unfoldable pub close_es : Ref → W (Unit {0})
  close_es null = pure tt
  close_es conn = do stop_watchers; tcp_raw_free conn

  unfoldable pub tcp_raw_close : Option Pcb → Ref → W (Unit {0})
  tcp_raw_close tpcb es = do detach tpcb; close_es es

  -- `watcher` is `&es->io` in every call.
  unfoldable pub free_all : Option Pcb → W (Unit {0})
  free_all pcb = do
    l ← watchers
    sys (record_event (closed l.io_fd))
    io_stop
    c ← load
    store (record c { socks_fd = 0 })
    tcp_raw_close pcb conn
