-- ===== src/Tcp/Downstream.antt =====
-- The callbacks that libev makes on a relayed connection: `send_data_lwip`, `timeout_cb`,
-- `block_cb` and `read_cb` of src/tcp_raw.cpp.
use ip2socks.Common.{
  ℕ, zero, suc, [], ◌∷◌, ◌+◌, ◌-◌, ◌*◌, ◌/◌, ◌%◌, ◌^◌, Bool, true, false, Option, none, some, ◌++◌,
  ◌||◌, Bytes, length, ltb, leb, ◌==◌, if◌then◌else◌, drop, not,
}
use ip2socks.System
use ip2socks.System.{
  Env, LwipErr, err_ok, err_mem, err_code, Pcb, Cmd, Trace, pure, fault, ◌>>=◌, ◌>>◌, tcp_write,
  tcp_output,
}
use ip2socks.Tcp.State.{TcpRawState, Ev, W, sys, load, store, c_str_bytes, watchers, set_watchers}
use ip2socks.Tcp.Close.{free_all, block_stop}
use ip2socks.Tcp.Upstream.{is_ok}

-- `BUFFER_SIZE` of var.h, and `TCP_SND_QUEUELEN` of lwipopts.h.
abbrev pub buffer_size : ℕ
buffer_size = 1514

abbrev pub tcp_snd_queuelen : ℕ
tcp_snd_queuelen = 1024 * 65535 / 1460

abbrev pub is_mem : LwipErr → Bool
is_mem err_mem = true
is_mem _ = false

module _ (env : Env) where
  -- The next length to try after `ERR_MEM`.
  unfoldable pub less : Pcb → ℕ → Trace → ℕ
  less pcb len t =
      if env.tcp_sndbuf t pcb == 0 || leb tcp_snd_queuelen (env.tcp_sndqueuelen t pcb)
      then 1
      else len / 2

  -- A round of the `do` loop of `send_data_lwip`, where `again` is the rest of the loop.
  unfoldable pub write_round :
      (ℕ → Cmd Trace (LwipErr × ℕ)) → Pcb → Bytes → ℕ → Cmd Trace (LwipErr × ℕ)
  write_round again pcb socks_buf len = do
    bs ← c_str_bytes socks_buf len
    err ← tcp_write env pcb bs
    if is_mem err
        then (λ t.
            let len' = less pcb len t in (if ltb 1 len' then again len' else pure (err, len')) t)
        else pure (err, len)

  -- The loop, with the last error and length. The length at least halves in each further round, so
  -- as much fuel as the length is enough; without fuel it is a fault.
  unfoldable pub write_loop : ℕ → Pcb → Bytes → ℕ → Cmd Trace (LwipErr × ℕ)
  write_loop zero pcb socks_buf len = fault
  write_loop (suc fuel) pcb socks_buf len =
      write_round (write_loop fuel pcb socks_buf) pcb socks_buf len

  -- `socks_buf` without its first `len` bytes; an iterator past the end is a fault.
  unfoldable pub erase_front : Bytes → ℕ → W Bytes
  erase_front socks_buf len =
      if length socks_buf == len
      then pure []
      else if ltb (length socks_buf) len
      then fault
      else pure (drop len socks_buf)

  -- What `send_data_lwip` does after a `tcp_write` that succeeded.
  unfoldable pub flushed : Pcb → ℕ → W (Unit {0})
  flushed pcb len = do
    c ← load
    rest ← erase_front c.socks_buf len
    store
        (record c { socks_buf = rest; socks_buf_used = (c.socks_buf_used + 2 ^ 16 - len) % 2 ^ 16 })
    wr_err ← sys (tcp_output env pcb)
    c ← load
    if is_ok wr_err
        then (if c.lwip_blocked then store (record c { lwip_blocked = false }) else pure tt)
        else pure tt

  -- The smaller of the send buffer and the bytes that wait, as `u16_t`.
  unfoldable pub send_length : Pcb → TcpRawState → Trace → ℕ
  send_length pcb c t =
      if ltb (env.tcp_sndbuf t pcb) c.socks_buf_used then env.tcp_sndbuf t pcb else c.socks_buf_used

  -- The body of `send_data_lwip` for a pcb that is not closed.
  unfoldable pub send_waiting : Pcb → W (Unit {0})
  send_waiting pcb = do
    c ← load
    len ← λ w. some (send_length pcb c w.trace, w)
    if ltb 0 len
        then (do
          (err, len) ← sys (write_loop len pcb c.socks_buf len)
          if is_ok err then flushed pcb len else pure tt)
        else pure tt

  unfoldable pub send_data_lwip : Option Pcb → W (Unit {0})
  send_data_lwip none = pure tt
  send_data_lwip (some pcb) = do
    state ← λ w. some (env.pcb_state w.trace pcb, w)
    if not (state == 0) then send_waiting pcb else pure tt

  unfoldable pub write_and_output : Option Pcb → W (Unit {0})
  write_and_output pcb = send_data_lwip pcb

  module _ (ev : Ev) where
    unfoldable pub timeout_cb : W (Unit {0})
    timeout_cb = do c ← load; write_and_output c.pcb; c ← load; free_all ev c.pcb

    unfoldable pub block_cb : W (Unit {0})
    block_cb = do
      c ← load
      write_and_output c.pcb
      c ← load
      store (record c { lwip_blocked = false })
      block_stop ev

    -- The part of `read_cb` that has read from the SOCKS5 socket.
    unfoldable pub relay_read : Option Pcb → Option Bytes → W (Unit {0})
    relay_read pcb none = free_all ev pcb
    relay_read pcb (some []) = do write_and_output pcb; free_all ev pcb
    relay_read pcb (some (b ∷ bs)) = do
      c ← load
      store (record c {
        socks_buf = c.socks_buf ++ (b ∷ bs);
        socks_buf_used = (c.socks_buf_used + length (b ∷ bs)) % 2 ^ 16;
      })
      write_and_output pcb

    unfoldable pub read_cb : W (Unit {0})
    read_cb = do
      c ← load
      l ← watchers
      set_watchers (record l { timeout = ev.timer_again l.timeout })
      if ltb buffer_size c.socks_buf_used
          then (do
            store (record c { lwip_blocked = true })
            l ← watchers
            set_watchers (record l { block = ev.timer_start l.block }))
          else (do
            l ← watchers
            nreads ← sys (System.recv env l.io_fd buffer_size)
            relay_read c.pcb nreads)
