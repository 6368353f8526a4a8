-- ===== src/Tcp/Safety.antt =====
-- What holds of a connection of src/tcp_raw.cpp over every sequence of callbacks.
use mathlib.Core.Path.{subst}
use ip2socks.Common.{
  ℕ, ◌<◌, ◌≡◌, inl, refl, sym, ◌∙◌, Bool, true, false, Option, none, some, List, [], ◌∷◌,
  if◌then◌else◌, arith, Bytes, length, All, append-nil,
}
use ip2socks.System.{Env, Trace, Pcb, pure, ◌>>◌, LwipErr, err_ok}
use ip2socks.Tcp.State.{TcpRawState, Ev, EvLaws, Watchers, Hooks, World, W, conn}
use ip2socks.Tcp.Close.{timeout_stop}
use ip2socks.Tcp.Upstream.{tcp_raw_recv, tcp_raw_sent, tcp_raw_poll}
use ip2socks.Tcp.Downstream.{read_cb, timeout_cb, block_cb}
use ip2socks.Tcp.Closing.{world}
use ip2socks.Tcp.Accept.{start_relay, new_es}
use ip2socks.Tcp.Events.{
  Input, recv_called, sent_called, poll_called, error_called, socks_readable, timeout_expired,
  block_expired, stop_block, deliver, run,
}
use ip2socks.Tcp.Flows.{Flows, down_in, down_out, up_in, up_out}
use ip2socks.Tcp.Invariant.{IsOpen, IsOpen-timers, IsGone, Valid, IsValid, Ends, Ends-pure}
use ip2socks.Tcp.UpstreamKeeps.{recv-Valid, sent-Valid, poll-Valid, error-Valid}
use ip2socks.Tcp.DownstreamKeeps.{read-Valid, timeout-Valid, block-Valid}

-- A `pbuf` chain holds less than 2 ^ 16 bytes, by the type of its `tot_len`.
abbrev pub Fits : Input → Type 0
Fits (recv_called (some bs) e) = length bs < 65536
Fits _ = Unit {0}

short_payload :
    (p : Option Bytes) (e : LwipErr)
    → Fits (recv_called p e)
    → (bs : Bytes) → p ≡ some bs
    → length bs < 65536
short_payload none e h bs q = cc
short_payload (some cs) e h bs q = let same : cs ≡ bs = cc in rw (← same) h

pub guarded :
    (P : World → Type 0) (b : Bool) (m : W (Unit {0})) (w : World)
    → P w
    → Ends P (m w)
    → Ends P ((if b then m else pure tt) w)
guarded P true m w old new = new
guarded P false m w old new = old

module _ (env : Env) {ev : Ev} (laws : EvLaws ev) (hd hu : Bytes) (pcb : Pcb) where
  abbrev pub all_hooks : Hooks
  all_hooks = record { arg = conn; recv = true; sent = true; err = true; poll = true }

  abbrev Held : World → Type 0
  Held = IsValid hd hu pcb

  -- A live connection, with its hooks and its watched descriptor written out.
  deliver_open :
      (i : Input) (c : TcpRawState) (l : Watchers) (t : Trace)
      → Fits i
      → IsOpen pcb c l all_hooks
      → c.buf ≡ []
      → Flows hd hu c.socks_buf [] t
      → Ends (IsValid hd hu pcb) (deliver env ev pcb i (world c l all_hooks t))
  unfolding deliver
  deliver_open (recv_called p e) c l t fits o empty f =
      Ends-pure Held (tcp_raw_recv env ev conn pcb p e) tt (world c l all_hooks t)
        (recv-Valid env laws hd hu pcb c l _ t p e (short_payload p e fits) o empty f)
  deliver_open sent_called c l t fits o empty f =
      Ends-pure Held (tcp_raw_sent env ev conn pcb) tt (world c l all_hooks t)
        (sent-Valid env laws hd hu pcb c l _ t o empty f)
  deliver_open poll_called c l t fits o empty f =
      Ends-pure Held (tcp_raw_poll env ev conn pcb) tt (world c l all_hooks t)
        (poll-Valid env laws hd hu pcb c l _ t o empty f)
  deliver_open (error_called e) c l t fits o empty f =
      error-Valid env laws hd hu pcb c l _ t e o empty f
  deliver_open socks_readable c l t fits o empty f =
      guarded Held l.io (read_cb env ev) (world c l all_hooks t) (o, empty, f)
        (read-Valid env laws hd hu pcb c l _ t o empty f)
  deliver_open timeout_expired c l t fits o empty f =
      let stopped = ev.timer_stop l.timeout in
      guarded Held l.timeout.active (timeout_stop ev >> timeout_cb env ev) (world c l all_hooks t)
        (o, empty, f)
        (timeout-Valid env laws hd hu pcb c (record l { timeout = stopped }) _ t
          (IsOpen-timers o stopped l.block (laws.stop_repeat l.timeout ∙ o.once)) empty f)
  deliver_open block_expired c l t fits o empty f =
      let stopped = ev.timer_stop l.block in
      guarded Held l.block.active (stop_block env ev pcb >> block_cb env ev) (world c l all_hooks t)
        (o, empty, f)
        (block-Valid env laws hd hu pcb c (record l { block = stopped }) _ t
          (IsOpen-timers o l.timeout stopped o.once) empty f)

  -- Once the connection is gone no callback is made.
  pub deliver_gone :
      (i : Input) (w : World) → IsGone w.loop w.hooks → deliver env ev pcb i w ≡ some (tt, w)
  unfolding deliver
  deliver_gone (recv_called p e) w g = ground arith
  deliver_gone sent_called w g = ground arith
  deliver_gone poll_called w g = ground arith
  deliver_gone (error_called e) w g = ground arith
  deliver_gone socks_readable w g = ground arith
  deliver_gone timeout_expired w g = ground arith
  deliver_gone block_expired w g = ground arith

  by_es :
      (es : Option TcpRawState) (i : Input) (l : Watchers) (h : Hooks) (t : Trace)
      → Fits i
      → Valid hd hu pcb es l h t
      → Ends Held (deliver env ev pcb i (record { es = es; loop = l; hooks = h; trace = t }))
  by_es (some c) i l h t fits (o, empty, f) =
      let o' : IsOpen pcb c l all_hooks = subst (IsOpen pcb c l) o.hooked o in
      subst (λ k. Ends Held (deliver env ev pcb i (world c l k t))) (sym o.hooked)
        (deliver_open i c l t fits o' empty f)
  by_es none i l h t fits (g, v) =
      rw (deliver_gone i (record { es = none; loop = l; hooks = h; trace = t }) g) (g, v)

  -- Every callback that lwIP or libev can make, with a payload shorter than 2 ^ 16 bytes, on a
  -- connection that holds the invariant ends without a fault in a world that holds it.
  pub deliver-IsValid :
      (i : Input) (w : World)
      → Fits i
      → IsValid hd hu pcb w
      → Ends (IsValid hd hu pcb) (deliver env ev pcb i w)
  deliver-IsValid i w fits v = by_es w.es i w.loop w.hooks w.trace fits v

  run_after :
      (is : List Input) (r : Option (Unit {0} × World))
      → Ends Held r
      → ((w : World) → Held w → Ends Held (run env ev pcb is w))
      → Ends Held (elim r [ none ↦ none | some (_, w) ↦ run env ev pcb is w ])
  run_after is none h next = h
  run_after is (some (a, w)) h next = next w h

  pub run-IsValid :
      (is : List Input) (w : World)
      → All Fits is
      → IsValid hd hu pcb w
      → Ends (IsValid hd hu pcb) (run env ev pcb is w)
  unfolding run
  run-IsValid [] w fits v = v
  run-IsValid (i ∷ is) w fits v =
      run_after is (deliver env ev pcb i w) (deliver-IsValid i w fits.0 v)
        (λ w'. run-IsValid is w' fits.1)

  pub run_gone :
      (is : List Input) (w : World) → IsGone w.loop w.hooks → run env ev pcb is w ≡ some (tt, w)
  unfolding run
  run_gone [] w g = refl
  run_gone (i ∷ is) w g = rw (deliver_gone i w g, run) (run_gone is w g)

module _ (env : Env) {ev : Ev} (laws : EvLaws ev) (pcb : Pcb) (fd : ℕ) (pos : 0 < fd) where
  -- The world in which `tcp_raw_accept` leaves a connection.
  abbrev pub started : World → World
  started w = record {
    es = some (new_es pcb fd);
    loop = record {
      io = ev.io_start false;
      io_fd = fd;
      timeout = ev.timer_start (record { active = false; repeat = 0 });
      block = record { active = false; repeat = 0 };
    };
    hooks = record { arg = conn; recv = true; sent = true; err = true; poll = true };
    trace = w.trace;
  }

  -- The handler's last part, in any world, leaves a new connection and returns `ERR_OK`.
  pub start_relay_run : (w : World) → start_relay env ev pcb fd w ≡ some (err_ok, started w)
  unfolding start_relay
  start_relay_run w = refl

  pub started-IsValid :
      (w : World)
      → up_in w.trace ≡ []
      → down_out w.trace ≡ []
      → IsValid (down_in w.trace) (up_out w.trace) pcb (started w)
  unfolding new_es
  started-IsValid w none_up none_down = (
    record {
      mine = refl;
      relaying = inl refl;
      buf_exact = refl;
      socks_exact = refl;
      socks_bound = omega arith;
      fd_pos = pos;
      fd_watched = refl;
      io_on = laws.io_start_active false;
      once = laws.start_repeat _;
      hooked = refl;
    },
    refl,
    record {
      down_exact = rw none_down (sym (append-nil (down_in w.trace)));
      up_exact = rw none_up;
    },
  )
