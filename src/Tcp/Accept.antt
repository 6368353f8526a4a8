-- ===== src/Tcp/Accept.antt =====
-- `tcp_raw_accept` of src/tcp_raw.cpp: a new connection of the stack gets a SOCKS5 socket.
use ip2socks.Common.{ℕ, true, false, Option, none, some, [], Bytes, ltb, if◌then◌else◌}
use ip2socks.Numbers.{decimal}
use ip2socks.System.{Ip4, Env, LwipErr, err_ok, err_mem, err_code, Pcb, pure, ◌>>=◌, ◌>>◌}
use ip2socks.Socks5.{socks5_connect, socks5_auth}
use ip2socks.Tcp.State.{TcpRawState, es_accepted, Ev, conn, W, sys, set_watchers, set_hooks}
use ip2socks.Tcp.Upstream.{is_ok}

-- The fields of `conf` and of the new pcb that the handler reads.
pub record NewPcb : Type 0 where
  pub pcb : Pcb
  pub local_ip : Ip4
  pub local_port : ℕ

pub record SocksServer : Type 0 where
  pub socks_server : Bytes
  pub socks_port : Bytes

-- `malloc` of `es` and its fields; the two timer contexts come with it.
unfoldable pub new_es : Pcb → ℕ → TcpRawState
new_es pcb fd = record {
  state = es_accepted;
  retries = 0;
  pcb = some pcb;
  socks_fd = fd;
  buf = [];
  buf_used = 0;
  socks_buf = [];
  socks_buf_used = 0;
  lwip_blocked = false;
}

unfoldable pub allocate : Pcb → ℕ → W (Unit {0})
unfolding new_es
allocate pcb fd w = some (tt, record w { es = some (new_es pcb fd) })

module _ (env : Env) (ev : Ev) where
  -- What follows a successful handshake: the watchers and the callbacks.
  unfoldable pub start_relay : Pcb → ℕ → W LwipErr
  unfolding allocate
  start_relay pcb fd = do
    allocate pcb fd
    set_watchers (record {
      io = ev.io_start false;
      io_fd = fd;
      timeout = ev.timer_start (record { active = false; repeat = 0 });
      block = record { active = false; repeat = 0 };
    })
    set_hooks (record { arg = conn; recv = true; sent = true; err = true; poll = true })
    pure err_ok

  -- `return -1` is `ERR_MEM`, and `ERR_VAL` is -6.
  unfoldable pub handshake : SocksServer → NewPcb → W (Option ℕ)
  handshake conf new = do
    fd? ← sys (socks5_connect env conf.socks_server conf.socks_port)
    elim fd? [
      | none ↦ pure none
      | some fd ↦ if ltb fd 1 then pure none else (do
        granted ← sys (socks5_auth env fd (env.inet_ntop new.local_ip) (decimal new.local_port) 1 1)
        if granted then pure (some fd) else pure none)
    ]

  unfoldable pub tcp_raw_accept : SocksServer → Option NewPcb → LwipErr → W LwipErr
  unfolding handshake start_relay
  tcp_raw_accept conf none e = pure (err_code 6)
  tcp_raw_accept conf (some new) e =
      if is_ok e
      then (do
        fd? ← handshake conf new
        elim fd? [ none ↦ pure err_mem | some fd ↦ start_relay new.pcb fd ])
      else pure (err_code 6)
