-- ===== src/Tcp/Owning/Runs.antt =====
-- What src/tcp_raw.cpp owns for a connection is closed when the connection ends.
use mathlib.Core.Path.{subst}
use ip2socks.Common.{ℕ, ◌<◌, ◌≡◌, refl, Bool, Option, none, some, List, [], ◌∷◌, All, if◌then◌else◌}
use ip2socks.System.{Env, Pcb, LwipErr, pure}
use ip2socks.Tcp.State.{World, W, Ev, EvLaws}
use ip2socks.Tcp.Accept.{new_es}
use ip2socks.Tcp.Events.{
  Input, recv_called, sent_called, poll_called, error_called, socks_readable, timeout_expired,
  block_expired, ignore_result, deliver, run,
}
use ip2socks.Tcp.Flows.{up_in, down_out}
use ip2socks.Tcp.Safety.{Fits, started}
use ip2socks.Tcp.Relay.{downstream_in_order}
use ip2socks.Tcp.Accepting.{closes}
use ip2socks.Tcp.Owning.{
  pcb_closes, Holding, KeepsOwns, Owns, Owned, KeepsOwns-if, KeepsOwns-bind, KeepsOwns-pure,
}
use ip2socks.Tcp.Owning.Handlers.{
  tcp_raw_recv-Keeps, tcp_raw_sent-Keeps, tcp_raw_poll-Keeps, tcp_raw_error-Keeps,
}
use ip2socks.Tcp.Owning.Deliver.{
  read_cb-Keeps, timeout_cb-Keeps, block_cb-Keeps, Keeps-timeout_stop, Keeps-stop_block,
}

module _ (pcb : Pcb) (fd : ℕ) (fds : List ℕ) (pcbs : List Pcb) where
  abbrev OwnedNow : Option (Unit {0} × World) → Type 0
  OwnedNow r = Owned pcb fd fds pcbs r

  -- A callback that is not registered does nothing.
  allowed :
      (b : Bool) (m : W (Unit {0})) (w : World)
      → Owns pcb fd fds pcbs w
      → KeepsOwns pcb fd fds pcbs m
      → OwnedNow ((if b then m else pure tt) w)
  allowed b m w o k = (KeepsOwns-if pcb fd fds pcbs b k (KeepsOwns-pure pcb fd fds pcbs tt)).at w o

  result_dropped :
      (m : W LwipErr) → KeepsOwns pcb fd fds pcbs m → KeepsOwns pcb fd fds pcbs (ignore_result m)
  result_dropped m k = KeepsOwns-bind pcb fd fds pcbs k λ _. KeepsOwns-pure pcb fd fds pcbs tt

  module _ (env : Env) (ev : Ev) (pos : 0 < fd) where
    pub deliver-Owned :
        (i : Input) (w : World) → Owns pcb fd fds pcbs w → OwnedNow (deliver env ev pcb i w)
    unfolding deliver
    deliver-Owned (recv_called p e) w o =
        allowed w.hooks.recv _ w o
          (result_dropped _ (tcp_raw_recv-Keeps pcb fd fds pcbs env ev pos w.hooks.arg p e))
    deliver-Owned sent_called w o =
        allowed w.hooks.sent _ w o
          (result_dropped _ (tcp_raw_sent-Keeps pcb fd fds pcbs env ev pos w.hooks.arg))
    deliver-Owned poll_called w o =
        allowed w.hooks.poll _ w o
          (result_dropped _ (tcp_raw_poll-Keeps pcb fd fds pcbs env ev pos w.hooks.arg))
    deliver-Owned (error_called e) w o =
        allowed w.hooks.err _ w o (tcp_raw_error-Keeps pcb fd fds pcbs env ev pos w.hooks.arg e)
    deliver-Owned socks_readable w o =
        allowed w.loop.io _ w o (read_cb-Keeps pcb fd fds pcbs env ev pos)
    deliver-Owned timeout_expired w o = allowed w.loop.timeout.active _ w o (
        KeepsOwns-bind pcb fd fds pcbs (Keeps-timeout_stop pcb fd fds pcbs env ev pos)
          λ _. timeout_cb-Keeps pcb fd fds pcbs env ev pos)
    deliver-Owned block_expired w o = allowed w.loop.block.active _ w o (
        KeepsOwns-bind pcb fd fds pcbs (Keeps-stop_block pcb fd fds pcbs env ev pos)
          λ _. block_cb-Keeps pcb fd fds pcbs env ev pos)

    run_after :
        (is : List Input) (r : Option (Unit {0} × World))
        → OwnedNow r
        → ((w : World) → Owns pcb fd fds pcbs w → OwnedNow (run env ev pcb is w))
        → OwnedNow (elim r [ none ↦ none | some (_, w) ↦ run env ev pcb is w ])
    run_after is none h next = tt
    run_after is (some (a, w)) h next = next w h

    run-Owned :
        (is : List Input) (w : World) → Owns pcb fd fds pcbs w → OwnedNow (run env ev pcb is w)
    unfolding run
    run-Owned [] w o = o
    run-Owned (i ∷ is) w o =
        run_after is (deliver env ev pcb i w) (deliver-Owned i w o) (run-Owned is)

module _ (env : Env) {ev : Ev} (laws : EvLaws ev) (pcb : Pcb) (fd : ℕ) (pos : 0 < fd) where
  pub started-Owns :
      (w : World)
      → Owns pcb fd (closes w.trace) (pcb_closes w.trace) (started env laws pcb fd pos w)
  unfolding new_es
  started-Owns w = (refl, ((refl, refl), refl, refl))

  -- From the state in which `tcp_raw_accept` leaves a connection, with a trace that has moved no
  -- byte of it, every sequence of callbacks whose payloads are shorter than 2 ^ 16 bytes ends
  -- without a fault. If the connection is then live, its descriptor and its pcb are as they were
  -- and nothing was closed meanwhile; if its memory is freed, `close` was called once, on its
  -- descriptor, and `tcp_close` twice, both times on its pcb.
  pub closed_once :
      (is : List Input) (w : World)
      → All Fits is
      → up_in w.trace ≡ []
      → down_out w.trace ≡ []
      → (w' : World) × (run env ev pcb is (started env laws pcb fd pos w) ≡ some (tt, w'))
        × Holding pcb fd (closes w.trace) (pcb_closes w.trace) w'.es w'.trace
  closed_once is w fits no_up no_down =
      let (w', e, rest) = downstream_in_order env laws pcb fd pos is w fits no_up no_down in
      let owned =
        run-Owned pcb fd (closes w.trace) (pcb_closes w.trace) env ev pos is
          (started env laws pcb fd pos w) (started-Owns w) in
      let owned' = subst (Owned pcb fd (closes w.trace) (pcb_closes w.trace)) e owned in
      (w', e, owned'.1)
