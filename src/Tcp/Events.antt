-- ===== src/Tcp/Events.antt =====
-- How lwIP and libev call the handlers of src/tcp_raw.cpp: a callback is made only while it is
-- registered, a watcher fires only while it is active.
use ip2socks.Common.{Option, none, some, List, [], ◌∷◌, Bytes, if◌then◌else◌}
use ip2socks.System.{Env, LwipErr, Pcb, pure, ◌>>=◌, ◌>>◌}
use ip2socks.Tcp.State.{Ev, W}
use ip2socks.Tcp.Close.{timeout_stop}
use ip2socks.Tcp.Upstream.{tcp_raw_recv, tcp_raw_sent, tcp_raw_poll, tcp_raw_error}
use ip2socks.Tcp.Downstream.{read_cb, timeout_cb, block_cb}

-- What the stack or the loop may call on the connection.
pub data Input : Type 0 where
  recv_called : Option Bytes → LwipErr → Input
  sent_called poll_called : Input
  error_called : LwipErr → Input
  socks_readable timeout_expired block_expired : Input

abbrev pub ignore_result : W LwipErr → W (Unit {0})
ignore_result m = do _ ← m; pure tt

module _ (env : Env) (ev : Ev) (pcb : Pcb) where
  -- A timer that does not repeat is stopped by the loop before its callback is made.
  abbrev pub stop_block : W (Unit {0})
  stop_block w =
      some (tt, record w { loop = record (w.loop) { block = ev.timer_stop w.loop.block } })

  unfoldable pub deliver : Input → W (Unit {0})
  deliver (recv_called p e) w =
      (if w.hooks.recv then ignore_result (tcp_raw_recv env ev w.hooks.arg pcb p e) else pure tt) w
  deliver sent_called w =
      (if w.hooks.sent then ignore_result (tcp_raw_sent env ev w.hooks.arg pcb) else pure tt) w
  deliver poll_called w =
      (if w.hooks.poll then ignore_result (tcp_raw_poll env ev w.hooks.arg pcb) else pure tt) w
  deliver (error_called e) w =
      (if w.hooks.err then tcp_raw_error env ev w.hooks.arg e else pure tt) w
  deliver socks_readable w = (if w.loop.io then read_cb env ev else pure tt) w
  deliver timeout_expired w =
      (if w.loop.timeout.active then (do timeout_stop ev; timeout_cb env ev) else pure tt) w
  deliver block_expired w =
      (if w.loop.block.active then (do stop_block; block_cb env ev) else pure tt) w

  unfoldable pub run : List Input → W (Unit {0})
  run [] w = some (tt, w)
  run (i ∷ is) w = elim (deliver i w) [ none ↦ none | some (_, w') ↦ run is w' ]
