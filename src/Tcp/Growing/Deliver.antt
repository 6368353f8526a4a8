-- ===== src/Tcp/Growing/Deliver.antt =====
-- The callbacks of libev in src/tcp_raw.cpp, and so every callback, only add to the trace.
use ip2socks.Common.{ℕ, zero, suc, Bool, Option, none, some, [], ◌∷◌, Bytes, ltb, if◌then◌else◌}
use ip2socks.System
use ip2socks.System.{Env, Pcb, LwipErr, Cmd, Trace, pure, tcp_write, tcp_output}
use ip2socks.System.Growing.{
  Later, Extends-same, Extends-one, Grows-pure, Grows-fault, Grows-if, Grows-bind,
}
use ip2socks.Tcp.State.{World, W, Ev, sys, c_str_bytes}
use ip2socks.Tcp.Downstream.{
  is_mem, less, write_round, write_loop, erase_front, flushed, send_waiting, send_data_lwip,
  write_and_output, timeout_cb, block_cb, relay_read, read_cb,
}
use ip2socks.Tcp.Events.{
  Input, recv_called, sent_called, poll_called, error_called, socks_readable, timeout_expired,
  block_expired, stop_block, ignore_result, deliver,
}
use ip2socks.Tcp.Growing.{GrowsW, GrowsT, GrowsW-sys, growth}
use ip2socks.Tcp.Growing.Handlers.{
  free_all-GrowsW, GrowsW-block_stop, GrowsW-timeout_stop, tcp_raw_recv-GrowsW, tcp_raw_sent-GrowsW,
  tcp_raw_poll-GrowsW, tcp_raw_error-GrowsW,
}

GrowsW-peek : {A : Type 0} (f : World → A) → GrowsW (λ w. some (f w, w))
GrowsW-peek f = record { at = λ w. Extends-same w.trace }

GrowsT-c_str : (s : Bytes) (n : ℕ) → GrowsT (c_str_bytes s n)
unfolding c_str_bytes
GrowsT-c_str s n = Grows-if _ Grows-fault (Grows-pure _)

module _ (env : Env) where
  GrowsT-write : (pcb : Pcb) (bs : Bytes) → GrowsT (tcp_write env pcb bs)
  GrowsT-write pcb bs = record { at = λ t. Extends-one _ t }

  GrowsW-output : (pcb : Pcb) → GrowsW (sys (tcp_output env pcb))
  GrowsW-output pcb = GrowsW-sys (tcp_output env pcb) (record { at = λ t. Extends-one _ t })

  GrowsW-recv : (fd n : ℕ) → GrowsW (sys (System.recv env fd n))
  GrowsW-recv fd n = GrowsW-sys (System.recv env fd n) (record { at = λ t. Extends-one _ t })

  again_or_stop :
      (again : ℕ → Cmd Trace (LwipErr × ℕ)) (pcb : Pcb) (len : ℕ) (err : LwipErr)
      → ((n : ℕ) → GrowsT (again n))
      → GrowsT (λ t.
        let len' = less env pcb len t in (if ltb 1 len' then again len' else pure (err, len')) t)
  again_or_stop again pcb len err k = record {
    at = λ t.
        (Grows-if (ltb 1 (less env pcb len t)) (k (less env pcb len t))
            (Grows-pure (err, less env pcb len t))).at
          t;
  }

  write_loop-GrowsT :
      (fuel : ℕ) (pcb : Pcb) (bs : Bytes) (len : ℕ) → GrowsT (write_loop env fuel pcb bs len)
  unfolding write_loop write_round
  write_loop-GrowsT zero pcb bs len = Grows-fault
  write_loop-GrowsT (suc fuel) pcb bs len =
      let again = write_loop-GrowsT fuel pcb bs in
      Grows-bind (GrowsT-c_str bs len) λ b. Grows-bind (GrowsT-write pcb b) λ err.
        Grows-if (is_mem err) (again_or_stop (write_loop env fuel pcb bs) pcb len err again)
          (Grows-pure (err, len))

  erase_front-GrowsW : (bs : Bytes) (n : ℕ) → GrowsW (erase_front env bs n)
  unfolding erase_front
  erase_front-GrowsW bs n = search growth

  flushed-GrowsW : (pcb : Pcb) (len : ℕ) → GrowsW (flushed env pcb len)
  unfolding flushed
  flushed-GrowsW pcb len = search (growth, erase_front-GrowsW, GrowsW-output) depth 16

  send_waiting-GrowsW : (pcb : Pcb) → GrowsW (send_waiting env pcb)
  unfolding send_waiting
  send_waiting-GrowsW pcb =
      search (growth, GrowsW-peek, GrowsW-sys, write_loop-GrowsT, flushed-GrowsW) depth 16

  send_data_lwip-GrowsW : (pcb : Option Pcb) → GrowsW (send_data_lwip env pcb)
  unfolding send_data_lwip
  send_data_lwip-GrowsW none = search growth
  send_data_lwip-GrowsW (some pcb) = search (growth, GrowsW-peek, send_waiting-GrowsW) depth 16

  write_and_output-GrowsW : (pcb : Option Pcb) → GrowsW (write_and_output env pcb)
  unfolding write_and_output
  write_and_output-GrowsW pcb = send_data_lwip-GrowsW pcb

  module _ (ev : Ev) where
    timeout_cb-GrowsW : GrowsW (timeout_cb env ev)
    unfolding timeout_cb
    timeout_cb-GrowsW = search (growth, write_and_output-GrowsW, free_all-GrowsW) depth 16

    block_cb-GrowsW : GrowsW (block_cb env ev)
    unfolding block_cb
    block_cb-GrowsW = search (growth, write_and_output-GrowsW, GrowsW-block_stop) depth 16

    relay_read-GrowsW : (pcb : Option Pcb) (r : Option Bytes) → GrowsW (relay_read env ev pcb r)
    unfolding relay_read
    relay_read-GrowsW pcb none = free_all-GrowsW ev pcb
    relay_read-GrowsW pcb (some []) =
        search (growth, write_and_output-GrowsW, free_all-GrowsW) depth 16
    relay_read-GrowsW pcb (some (b ∷ bs)) = search (growth, write_and_output-GrowsW) depth 16

    read_cb-GrowsW : GrowsW (read_cb env ev)
    unfolding read_cb
    read_cb-GrowsW = search (growth, relay_read-GrowsW, GrowsW-recv) depth 16

    GrowsW-stop_block : (pcb : Pcb) → GrowsW (stop_block env ev pcb)
    GrowsW-stop_block pcb = record { at = λ w. Extends-same w.trace }

    -- A callback that is not registered does nothing.
    allowed :
        {m : W (Unit {0})} (b : Bool) (w : World)
        → GrowsW m
        → Later World.trace w.trace ((if b then m else pure tt) w)
    allowed b w k = (Grows-if b k (Grows-pure tt)).at w

    result_dropped : {m : W LwipErr} → GrowsW m → GrowsW (ignore_result m)
    result_dropped k = Grows-bind k λ _. Grows-pure tt

    pub deliver-GrowsW : (pcb : Pcb) (i : Input) → GrowsW (deliver env ev pcb i)
    unfolding deliver
    deliver-GrowsW pcb i = record { at = each i }
      where
        each : (i : Input) (w : World) → Later World.trace w.trace (deliver env ev pcb i w)
        each (recv_called p e) w =
            allowed w.hooks.recv w (result_dropped (tcp_raw_recv-GrowsW env ev w.hooks.arg pcb p e))
        each sent_called w =
            allowed w.hooks.sent w (result_dropped (tcp_raw_sent-GrowsW env ev w.hooks.arg pcb))
        each poll_called w =
            allowed w.hooks.poll w (result_dropped (tcp_raw_poll-GrowsW env ev w.hooks.arg pcb))
        each (error_called e) w = allowed w.hooks.err w (tcp_raw_error-GrowsW env ev w.hooks.arg e)
        each socks_readable w = allowed w.loop.io w read_cb-GrowsW
        each timeout_expired w =
            allowed w.loop.timeout.active w
              (Grows-bind (GrowsW-timeout_stop ev) λ _. timeout_cb-GrowsW)
        each block_expired w =
            allowed w.loop.block.active w (Grows-bind (GrowsW-stop_block pcb) λ _. block_cb-GrowsW)
