-- ===== src/Tcp/State.antt =====
-- The memory of one relayed connection (src/tcp_raw.h), the watchers that libev holds for it and
-- the callbacks that lwIP holds.
use ip2socks.Common.{
  ℕ, ◌≡◌, ◌+◌, Bool, true, false, Option, none, some, Bytes, ltb, if◌then◌else◌, ◌++◌, take, length,
  [], ◌∷◌,
}
use ip2socks.System.{Trace, Pcb, Cmd, fault, pure}

-- `enum tcp_raw_states`.
pub data TcpRawStates : Type 0 where
  es_none es_accepted es_received es_closing : TcpRawStates

-- `struct tcp_raw_state`, but for its watchers.
pub record TcpRawState : Type 0 where
  pub state : TcpRawStates
  pub retries : ℕ
  pub pcb : Option Pcb
  pub socks_fd : ℕ
  pub buf : Bytes
  pub buf_used : ℕ  -- u16_t
  pub socks_buf : Bytes
  pub socks_buf_used : ℕ  -- u16_t
  pub lwip_blocked : Bool

-- An `ev_timer`: whether it is running, and its `repeat` in seconds.
pub record Timer : Type 0 where
  pub active : Bool
  pub repeat : ℕ

-- The calls of libev, which the sources only use.
pub record Ev : Type 0 where
  pub timer_start : Timer → Timer
  pub timer_stop : Timer → Timer
  pub timer_again : Timer → Timer
  pub io_start : Bool → Bool
  pub io_stop : Bool → Bool

-- What its manual promises of them: `ev_timer_again` stops a timer that does not repeat.
pub record EvLaws (ev : Ev) : Type 0 where
  pub stop_active : (t : Timer) → (ev.timer_stop t).active ≡ false
  pub stop_repeat : (t : Timer) → (ev.timer_stop t).repeat ≡ t.repeat
  pub start_active : (t : Timer) → (ev.timer_start t).active ≡ true
  pub start_repeat : (t : Timer) → (ev.timer_start t).repeat ≡ t.repeat
  pub again_active : (t : Timer) → t.repeat ≡ 0 → (ev.timer_again t).active ≡ false
  pub again_repeat : (t : Timer) → (ev.timer_again t).repeat ≡ t.repeat
  pub io_start_active : (b : Bool) → ev.io_start b ≡ true
  pub io_stop_active : (b : Bool) → ev.io_stop b ≡ false

-- `es->io` with its descriptor, and the timers of `es->timeout_ctx` and `es->block_ctx`.
pub record Watchers : Type 0 where
  pub io : Bool
  pub io_fd : ℕ
  pub timeout : Timer
  pub block : Timer

-- A `struct tcp_raw_state *`: NULL, or the one connection of the world.
pub data Ref : Type 0 where
  null conn : Ref

-- What `tcp_arg`, `tcp_recv`, `tcp_sent`, `tcp_err` and `tcp_poll` have set for the pcb.
pub record Hooks : Type 0 where
  pub arg : Ref
  pub recv : Bool
  pub sent : Bool
  pub err : Bool
  pub poll : Bool

-- `es` is `none` before it is allocated and once it is freed: to read or write it then is a fault.
pub record World : Type 0 where
  pub es : Option TcpRawState
  pub loop : Watchers
  pub hooks : Hooks
  pub trace : Trace

abbrev pub W : Type 0 → Type 0
W = Cmd World

abbrev pub sys : {A : Type 0} → Cmd Trace A → W A
sys m w = elim (m w.trace) [ none ↦ none | some (a, t) ↦ some (a, record w { trace = t }) ]

abbrev pub load : W TcpRawState
load w = elim w.es [ none ↦ none | some c ↦ some (c, w) ]

abbrev pub store : TcpRawState → W (Unit {0})
store c w = elim w.es [ none ↦ none | some _ ↦ some (tt, record w { es = some c }) ]

-- `free(es)`.
abbrev pub release : W (Unit {0})
release w = elim w.es [ none ↦ none | some _ ↦ some (tt, record w { es = none }) ]

abbrev pub watchers : W Watchers
watchers w = some (w.loop, w)

abbrev pub set_watchers : Watchers → W (Unit {0})
set_watchers l w = some (tt, record w { loop = l })

abbrev pub set_hooks : Hooks → W (Unit {0})
set_hooks h w = some (tt, record w { hooks = h })

-- `n` bytes from `s.c_str()`: the text, then a NUL, and beyond that a fault.
unfoldable pub c_str_bytes : {S : Type 0} → Bytes → ℕ → Cmd S Bytes
c_str_bytes s n = if ltb (length s + 1) n then fault else pure (take n (s ++ 0 ∷ []))
