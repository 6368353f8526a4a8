-- ===== src/Tcp/Invariant.antt =====
-- What holds of a relayed connection of src/tcp_raw.cpp between two callbacks.
use ip2socks.Common.{
  ℕ, ◌≤◌, ◌<◌, ◌≡◌, ◌⊎◌, refl, Bool, true, false, Option, none, some, [], ◌∷◌, ltb, if◌then◌else◌,
  arith, Bytes, length,
}
use ip2socks.System.{pure, ◌>>=◌, Trace, closed, tcp_closed, Pcb}
use ip2socks.Tcp.State.{
  TcpRawState, es_accepted, es_received, Timer, Ev, EvLaws, Watchers, W, conn, Hooks, World,
}
use ip2socks.Tcp.Close.{no_hooks, tcp_raw_close}
use ip2socks.Tcp.Closing.{stopped, closed_world, world, tcp_raw_close_lem}
use ip2socks.Tcp.Flows.{Flows, Flows-closed, Flows-tcp_closed}

-- A live connection: its counters are exact, its descriptor is watched, its callbacks are
-- registered, and its timer does not repeat. `BUFFER_SIZE` bytes and one more read are the most
-- that wait.
pub record IsOpen (pcb : Pcb) (c : TcpRawState) (l : Watchers) (h : Hooks) : Type 0 where
  pub mine : c.pcb ≡ some pcb
  pub relaying : (c.state ≡ es_accepted) ⊎ (c.state ≡ es_received)
  pub buf_exact : c.buf_used ≡ length c.buf
  pub socks_exact : c.socks_buf_used ≡ length c.socks_buf
  pub socks_bound : length c.socks_buf ≤ 3028
  pub fd_pos : 0 < c.socks_fd
  pub fd_watched : l.io_fd ≡ c.socks_fd
  pub io_on : l.io ≡ true
  pub once : l.timeout.repeat ≡ 0
  pub hooked : h ≡ record { arg = conn; recv = true; sent = true; err = true; poll = true }

pub IsOpen-buf :
    {pcb : Pcb} {c : TcpRawState} {l : Watchers} {h : Hooks}
    → IsOpen pcb c l h
    → (b : Bytes) (n : ℕ) → n ≡ length b
    → IsOpen pcb (record c { buf = b; buf_used = n }) l h
IsOpen-buf o b n e = ground arith

pub IsOpen-received :
    {pcb : Pcb} {c : TcpRawState} {l : Watchers} {h : Hooks}
    → IsOpen pcb c l h
    → IsOpen pcb (record c { state = es_received }) l h
IsOpen-received o = ground arith

pub IsOpen-retries :
    {pcb : Pcb} {c : TcpRawState} {l : Watchers} {h : Hooks}
    → IsOpen pcb c l h
    → (n : ℕ) → IsOpen pcb (record c { retries = n }) l h
IsOpen-retries o n = ground arith

pub IsOpen-socks :
    {pcb : Pcb} {c : TcpRawState} {l : Watchers} {h : Hooks}
    → IsOpen pcb c l h
    → (b : Bytes) (n : ℕ) (blocked : Bool) → n ≡ length b
    → length b ≤ 3028
    → IsOpen pcb (record c { socks_buf = b; socks_buf_used = n; lwip_blocked = blocked }) l h
IsOpen-socks o b n blocked e bound = ground arith

pub IsOpen-timers :
    {pcb : Pcb} {c : TcpRawState} {l : Watchers} {h : Hooks}
    → IsOpen pcb c l h
    → (timeout block : Timer) → timeout.repeat ≡ 0
    → IsOpen pcb c (record l { timeout = timeout; block = block }) h
IsOpen-timers o timeout block e = ground arith

-- A connection that is gone: nothing is left that could call back.
pub record IsGone (l : Watchers) (h : Hooks) : Type 0 where
  pub io_off : l.io ≡ false
  pub timeout_off : l.timeout.active ≡ false
  pub block_off : l.block.active ≡ false
  pub unhooked : h ≡ no_hooks

-- Between two callbacks nothing waits to be sent upstream.
abbrev pub Valid : (hd hu : Bytes) → Pcb → Option TcpRawState → Watchers → Hooks → Trace → Type 0
Valid hd hu pcb (some c) l h t = IsOpen pcb c l h × (c.buf ≡ []) × Flows hd hu c.socks_buf [] t
Valid hd hu pcb none l h t = IsGone l h × ((down : Bytes) × (up : Bytes) × Flows hd hu down up t)

abbrev pub IsValid : (hd hu : Bytes) → Pcb → World → Type 0
IsValid hd hu pcb w = Valid hd hu pcb w.es w.loop w.hooks w.trace

-- The command ended without a fault, in a world with the property.
abbrev pub Ends : {A : Type 0} → (World → Type 0) → Option (A × World) → Type 0
Ends P none = ⊥
Ends P (some (a, w)) = P w

pure_last :
    {A B : Type 0} (P : World → Type 0) (b : B) (r : Option (A × World))
    → Ends P r
    → Ends P (elim r [ none ↦ none | some (_, w) ↦ some (b, w) ])
pure_last P b none h = h
pure_last P b (some (a, w)) h = h

-- A result put behind a command changes nothing.
pub Ends-pure :
    {A B : Type 0} (P : World → Type 0) (m : W A) (b : B) (w : World)
    → Ends P (m w)
    → Ends P ((m >>= λ _. pure b) w)
Ends-pure P m b w h = pure_last P b (m w) h

pure_behind :
    {A B : Type 0} (P : World → Type 0) (n : W A) (b : B) (r : Option (Unit {0} × World))
    → Ends P (elim r [ none ↦ none | some (_, w) ↦ n w ])
    → Ends P (elim r [ none ↦ none | some (_, w) ↦ (n >>= λ _. pure b) w ])
pure_behind P n b none h = h
pure_behind P n b (some (a, w)) h = Ends-pure P n b w h

pub Ends-after :
    {A B : Type 0} (P : World → Type 0) (m : W (Unit {0})) (n : W A) (b : B) (w : World)
    → Ends P ((m >>= λ _. n) w)
    → Ends P ((m >>= λ _. n >>= λ _. pure b) w)
Ends-after P m n b w h = pure_behind P n b (m w) h

closed_if-Flows :
    {hd hu down up : Bytes} {t : Trace} (b : Bool) (pcb : Pcb) (fd : ℕ)
    → Flows hd hu down up t
    → Flows hd hu down up (if b then closed fd ∷ tcp_closed pcb ∷ t else tcp_closed pcb ∷ t)
closed_if-Flows true pcb fd f = Flows-closed (Flows-tcp_closed f pcb) fd
closed_if-Flows false pcb fd f = Flows-tcp_closed f pcb

module _ {ev : Ev} (laws : EvLaws ev) where
  stopped_off : (t : Timer) → (stopped ev t).active ≡ false
  stopped_off t = ground (arith, laws.stop_active t)

  closed_world-IsGone :
      (pcb : Pcb) (fd : ℕ) (l : Watchers) (t : Trace)
      → (0 < fd) ⊎ (l.io ≡ false)
      → let w = closed_world ev pcb fd l t in IsGone w.loop w.hooks
  closed_world-IsGone pcb fd l t h = record {
    io_off = ground (arith, laws.io_stop_active l.io);
    timeout_off = stopped_off l.timeout;
    block_off = stopped_off l.block;
    unhooked = refl;
  }

  -- Closing a connection from any state of its buffers leaves nothing behind.
  pub close-Valid :
      {hd hu down up : Bytes} (pcb : Pcb) (c : TcpRawState) (l : Watchers) (h : Hooks) (t : Trace)
      → c.pcb ≡ some pcb
      → (0 < c.socks_fd) ⊎ (l.io ≡ false)
      → Flows hd hu down up t
      → Ends (IsValid hd hu pcb) (tcp_raw_close ev (some pcb) conn (world c l h t))
  close-Valid {down = down} {up = up} pcb c l h t mine watched f =
      rw (tcp_raw_close_lem ev pcb c l h t mine) (
        closed_world-IsGone pcb c.socks_fd l t watched,
        (down, up, Flows-tcp_closed (closed_if-Flows (ltb 0 c.socks_fd) pcb c.socks_fd f) pcb),
      )
