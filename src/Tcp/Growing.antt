-- ===== src/Tcp/Growing.antt =====
-- The rules by which a command of src/tcp_raw.cpp only adds to the trace.
pub mod Handlers
pub mod Deliver
use ip2socks.Common.{
  arith, ℕ, zero, suc, ◌<◌, Bool, Option, none, some, [], ◌∷◌, Bytes, length, if◌then◌else◌,
}
use ip2socks.System
use ip2socks.System.{Env, Trace, Pcb, LwipErr, Event, Cmd, record_event}
use ip2socks.System.Growing.{
  Grows, Later, Extends, Extends-same, Extends-one, Grows-pure, Grows-fault, Grows-if, Grows-bind,
}
use ip2socks.Tcp.State.{
  World, W, sys, load, store, release, watchers, set_watchers, set_hooks, Watchers, Hooks, Ev, Ref,
  null, conn, TcpRawState, TcpRawStates, c_str_bytes,
}
use ip2socks.Tcp.Close.{
  close_pcb, tcp_raw_free, detach, io_stop, block_stop, timeout_stop, stop_watchers, close_es,
  tcp_raw_close, free_all,
}
use ip2socks.Tcp.Upstream.{
  after_send, tcp_raw_send, tcp_raw_error, flush_or_close, tcp_raw_poll, tcp_raw_sent,
  append_payload, recv_payload, recv_closed, recv_failed, tcp_raw_recv,
}

abbrev pub GrowsW : {A : Type 0} → W A → Type 0
GrowsW m = Grows World.trace m

abbrev pub GrowsT : {A : Type 0} → Cmd Trace A → Type 0
GrowsT m = Grows (λ t. t) m

pub GrowsW-load : GrowsW load
GrowsW-load = record { at = λ w. ground (arith, Extends-same w.trace) }

pub GrowsW-store : (c : TcpRawState) → GrowsW (store c)
GrowsW-store c = record { at = λ w. ground (arith, Extends-same w.trace) }

pub GrowsW-release : GrowsW release
GrowsW-release = record { at = λ w. ground (arith, Extends-same w.trace) }

pub GrowsW-watchers : GrowsW watchers
GrowsW-watchers = record { at = λ w. Extends-same w.trace }

pub GrowsW-set_watchers : (l : Watchers) → GrowsW (set_watchers l)
GrowsW-set_watchers l = record { at = λ w. Extends-same w.trace }

pub GrowsW-set_hooks : (h : Hooks) → GrowsW (set_hooks h)
GrowsW-set_hooks h = record { at = λ w. Extends-same w.trace }

pub GrowsW-sys : {A : Type 0} (m : Cmd Trace A) → GrowsT m → GrowsW (sys m)
GrowsW-sys {A = A} m k = record { at = λ w. of_result w (m w.trace) (k.at w.trace) }
  where
    of_result :
        (w : World) (r : Option (A × Trace))
        → Later (λ t. t) w.trace r
        → Later World.trace w.trace
            (elim r [ none ↦ none | some (a, t) ↦ some (a, record w { trace = t }) ])
    of_result w none h = tt
    of_result w (some (a, t)) h = h

pub GrowsT-record : (e : Event) → GrowsT (record_event e)
GrowsT-record e = record { at = λ t. Extends-one e t }

pub GrowsW-c_str : (s : Bytes) (n : ℕ) → GrowsW (c_str_bytes s n)
unfolding c_str_bytes
GrowsW-c_str s n = Grows-if _ Grows-fault (Grows-pure _)

pub GrowsW-record : (e : Event) → GrowsW (sys (record_event e))
GrowsW-record e = GrowsW-sys _ (GrowsT-record e)

pub ruleset growth = (
  Grows-bind, Grows-pure, Grows-fault, Grows-if, GrowsW-load, GrowsW-store, GrowsW-release,
  GrowsW-watchers, GrowsW-set_watchers, GrowsW-set_hooks, GrowsW-record, GrowsW-c_str,
)
