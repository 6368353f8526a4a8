-- ===== src/Tcp/Timeout.antt =====
-- The 60 seconds timer of src/tcp_raw.cpp, and what `read_cb` does to it.
use ip2socks.Common.{
  ℕ, ◌+◌, ◌≤◌, ◌≡◌, inl, inr, refl, ◌∙◌, Bool, true, false, Option, none, some, [], ◌∷◌, arith,
  Bytes, length, ◌++◌, ◌%◌, ◌^◌, append-nil, length-append, Bool-cases, ltb, if◌then◌else◌,
}
use ip2socks.System.{Env, Trace, Pcb, pure, closed, received, at_most}
use ip2socks.Tcp.State.{TcpRawState, Ev, EvLaws, Watchers, Hooks, World, conn}
use ip2socks.Tcp.Close.{tcp_raw_close, free_all}
use ip2socks.Tcp.Closing.{world, tcp_raw_close_lem}
use ip2socks.Tcp.Downstream.{relay_read, read_cb}
use ip2socks.Tcp.DownstreamKeeps.{free_all_run, eof_run, read_full, read_room, at_most-le}
use ip2socks.Tcp.Relaying.{write_and_output-Relayed}
use ip2socks.Tcp.Relay.{ended_world}
use ip2socks.Tcp.Events.{socks_readable, timeout_expired, deliver}
use ip2socks.Tcp.Flows.{Flows, Flows-received}
use ip2socks.Tcp.Invariant.{IsOpen, IsOpen-socks, IsOpen-timers, Valid, IsValid, Ends}

-- A property of a test that is true needs one proof only.
pub either : (P : Bool → Type 0) (b : Bool) → P true → (b ≡ false → P false) → P b
either P true held otherwise = held
either P false held otherwise = otherwise refl

module _ (env : Env) {ev : Ev} (laws : EvLaws ev) (hd hu : Bytes) (pcb : Pcb) where
  abbrev Stopped : World → Type 0
  Stopped w = w.loop.timeout.active ≡ false

  -- A timer that is off stays so while a connection closes.
  close-Stopped :
      (c : TcpRawState) (l : Watchers) (h : Hooks) (t : Trace)
      → c.pcb ≡ some pcb
      → l.timeout.active ≡ false
      → Ends Stopped (tcp_raw_close ev (some pcb) conn (world c l h t))
  close-Stopped c l h t mine o = rw (tcp_raw_close_lem ev pcb c l h t mine) (ground (arith))

  free_all-Stopped :
      (c : TcpRawState) (l : Watchers) (h : Hooks) (t : Trace)
      → c.pcb ≡ some pcb
      → l.timeout.active ≡ false
      → Ends Stopped (free_all ev (some pcb) (world c l h t))
  free_all-Stopped c l h t mine o = rw (free_all_run env laws hd hu pcb c l h t) (
      close-Stopped (record c { socks_fd = 0 }) (record l { io = ev.io_stop l.io }) h
        (closed l.io_fd ∷ t) mine o)

  relay_read-Stopped :
      (r : Option Bytes) (c : TcpRawState) (l : Watchers) (h : Hooks) (t : Trace) (fd : ℕ)
      → ((bs : Bytes) → r ≡ some bs → length bs ≤ 1514)
      → length c.socks_buf ≤ 1514
      → IsOpen pcb c l h
      → c.buf ≡ []
      → Flows hd hu c.socks_buf [] t
      → l.timeout.active ≡ false
      → Ends Stopped (relay_read env ev (some pcb) r (world c l h (received fd r ∷ t)))
  unfolding relay_read
  relay_read-Stopped none c l h t fd short small o empty f off = free_all-Stopped c l h _ o.mine off
  relay_read-Stopped (some []) c l h t fd short small o empty f off =
      let got : Flows hd hu c.socks_buf [] (received fd (some []) ∷ t) =
        rw append-nil at (Flows-received f fd []) in
      let r =
        write_and_output-Relayed env hd hu pcb l h c (received fd (some []) ∷ t) o empty got in
      rw (eof_run env laws hd hu pcb c r.after l h _ r.log r.ended)
        (free_all-Stopped r.after l h r.log r.still.mine off)
  relay_read-Stopped (some (b ∷ bs)) c l h t fd short small o empty f off =
      let size = length-append c.socks_buf (b ∷ bs) in
      let few = short (b ∷ bs) refl in
      let o' =
        IsOpen-socks o (c.socks_buf ++ (b ∷ bs)) ((c.socks_buf_used + length (b ∷ bs)) % 2 ^ 16)
          c.lwip_blocked (omega (arith, o.socks_exact)) (omega arith) in
      let r =
        write_and_output-Relayed env hd hu pcb l h _ (received fd (some (b ∷ bs)) ∷ t) o' empty
          (Flows-received f fd (b ∷ bs)) in
      rw r.ended off

  read-Stopped :
      (c : TcpRawState) (l : Watchers) (h : Hooks) (t : Trace)
      → IsOpen pcb c l h
      → c.buf ≡ []
      → Flows hd hu c.socks_buf [] t
      → Ends Stopped (read_cb env ev (world c l h t))
  read-Stopped c l h t o empty f =
      let off = laws.again_active l.timeout o.once in
      let once : (ev.timer_again l.timeout).repeat ≡ 0 = laws.again_repeat l.timeout ∙ o.once in
      elim (Bool-cases (ltb 1514 c.socks_buf_used)) [
        | inl e ↦ rw (read_full env laws hd hu pcb c l h t (ground arith)) off
        | inr e ↦
            let room : c.socks_buf_used ≤ 1514 = ground arith in
            rw (read_room env laws hd hu pcb c l h t room o.mine) (
              relay_read-Stopped (at_most 1514 (env.recv t l.io_fd)) c _ h t l.io_fd
                (λ bs q. at_most-le env laws hd hu pcb 1514 _ bs q) (omega (arith, o.socks_exact))
                (IsOpen-timers o _ l.block once) empty f off)
      ]

  deliver-Stopped :
      (es : Option TcpRawState) (l : Watchers) (h : Hooks) (t : Trace)
      → Valid hd hu pcb es l h t
      → Ends Stopped
          (deliver env ev pcb socks_readable (record { es = es; loop = l; hooks = h; trace = t }))
  unfolding deliver
  deliver-Stopped (some c) l h t (o, empty, f) =
      either (λ b. Ends Stopped ((if b then read_cb env ev else pure tt) (world c l h t))) l.io
        (read-Stopped c l h t o empty f) (λ e. cc (e, o.io_on))
  deliver-Stopped none l h t (g, v) = rw g.io_off g.timeout_off

  -- Of a connection that holds the invariant, a readable SOCKS5 socket leaves the 60 seconds timer
  -- stopped, so that its expiry does nothing from then on until something starts the timer again.
  read_cb_stops_timeout :
      (w : World)
      → IsValid hd hu pcb w
      → (w' : World) × (deliver env ev pcb socks_readable w ≡ some (tt, w'))
        × (w'.loop.timeout.active ≡ false)
        × (deliver env ev pcb timeout_expired w' ≡ some (tt, w'))
  unfolding deliver
  read_cb_stops_timeout w v =
      let (w', e, off) = ended_world Stopped _ (deliver-Stopped w.es w.loop w.hooks w.trace v) in
      (w', e, off, rw off refl)
