-- ===== src/Tcp/Ending.antt =====
-- Which callbacks of src/tcp_raw.cpp end a live connection.
pub mod Upstream
pub mod Downstream
pub mod Events
use mathlib.Core.Path.{subst}
use ip2socks.Common.{
  ℕ, zero, suc, ◌+◌, ◌%◌, ◌^◌, ◌≤◌, ◌<◌, ◌≡◌, ◌↔◌, ◌⊎◌, inl, inr, refl, sym, ap, ◌∙◌, Bool, true,
  false, if◌then◌else◌, Option, none, some, [], ◌∷◌, ◌++◌, Bytes, length, length-append, append-nil,
  ltb, arith, Bool-cases,
}
use ip2socks.System.{
  Env, Trace, Pcb, LwipErr, err_ok, err_mem, err_code, received, pbuf_copied, pbuf_freed, at_most,
  ◌>>◌, pure,
}
use ip2socks.Tcp.State.{
  TcpRawStates, es_none, es_accepted, es_received, es_closing, TcpRawState, Ev, EvLaws, Watchers,
  Hooks, World, W, conn,
}
use ip2socks.Tcp.Close.{tcp_raw_close, free_all, timeout_stop}
use ip2socks.Tcp.Closing.{world, tcp_raw_close_lem}
use ip2socks.Tcp.Upstream.{
  after_send, tcp_raw_send, append_payload, recv_payload, recv_failed, tcp_raw_recv, tcp_raw_sent,
  tcp_raw_poll,
}
use ip2socks.Tcp.Downstream.{relay_read, read_cb, timeout_cb, block_cb}
use ip2socks.Tcp.DownstreamKeeps.{
  free_all_run, timeout_run, block_run, eof_run, read_full, read_room, at_most-le, again,
}
use ip2socks.Tcp.Relaying.{write_and_output-Relayed}
use ip2socks.Tcp.Sending.{send_run, send_idle}
use ip2socks.Tcp.UpstreamKeeps.{
  appended, append_run, recv_accepted_run, recv_closed_run, idle_of, sent_run, poll_run, error_run,
}
use ip2socks.Tcp.Relay.{ended_world}
use ip2socks.Tcp.Timeout.{either}
use ip2socks.Tcp.Events.{
  Input, recv_called, sent_called, poll_called, error_called, socks_readable, timeout_expired,
  block_expired, stop_block, deliver,
}
use ip2socks.Tcp.Flows.{Flows, Flows-received}
use ip2socks.Tcp.Invariant.{
  IsOpen, IsOpen-buf, IsOpen-received, IsOpen-socks, IsOpen-timers, Valid, IsValid, Ends, Ends-pure,
  Ends-after,
}
use ip2socks.Tcp.Safety.{Fits, all_hooks, guarded}

-- A `send` that failed or took nothing.
abbrev pub SendFails : Option ℕ → Type 0
SendFails none = Unit {0}
SendFails (some zero) = Unit {0}
SendFails (some (suc n)) = ⊥

-- A `recv` that failed or came to the end of the stream.
abbrev pub Over : Option Bytes → Type 0
Over none = Unit {0}
Over (some []) = Unit {0}
Over (some (b ∷ bs)) = ⊥

-- What ends a connection: the stack's close or error; a payload that the SOCKS5 socket does not
-- take; an error or the end of the SOCKS5 socket, if there was room to read; and the running timer.
abbrev pub Closes : Env → TcpRawState → Watchers → Trace → Input → Type 0
Closes env c l t (recv_called none e) = Unit {0}
Closes env c l t (recv_called (some p) err_ok) =
    (0 < length p) × SendFails (env.send (pbuf_copied p ∷ t) c.socks_fd p)
Closes env c l t (recv_called (some p) e) = ⊥
Closes env c l t sent_called = ⊥
Closes env c l t poll_called = ⊥
Closes env c l t (error_called e) = Unit {0}
Closes env c l t socks_readable =
    (c.socks_buf_used ≤ 1514) × Over (at_most 1514 (env.recv t l.io_fd))
Closes env c l t timeout_expired = l.timeout.active ≡ true
Closes env c l t block_expired = ⊥

-- The connection was freed exactly if `P`.
abbrev pub FreedIff : Type 0 → World → Type 0
FreedIff P w = (w.es ≡ none) ↔ P

abbrev pub Freed : World → Type 0
Freed w = w.es ≡ none

-- The command ended with the connection freed, for a reason.
pub died :
    {A : Type 0} {P : Type 0} (r : Option (A × World)) → P → Ends Freed r → Ends (FreedIff P) r
died none p h = h
died (some (a, w)) p h = (λ e. p, λ q. h)

-- The connection is live, and there was no reason to end it.
pub lives : {P : Type 0} {c : TcpRawState} → ¬ P → (some c ≡ none) ↔ P
lives no_reason = (λ q. absurd (cc q), λ p. absurd (no_reason p))

pub positive : (n : ℕ) → ltb 0 n ≡ true → 0 < n
positive n e = ground arith

-- A reason that holds in any case.
pub with_reason :
    {P : Type 0} (Q : Type 0) (r : Option (Unit {0} × World))
    → P
    → Ends (FreedIff Q) r
    → Ends (FreedIff (P × Q)) r
with_reason Q none p h = h
with_reason Q (some (a, w)) p h = (λ e. (p, h.0 e), λ q. h.1 q.1)

module _ (env : Env) {ev : Ev} (laws : EvLaws ev) (hd hu : Bytes) (pcb : Pcb) where
  pub close-Freed :
      (c : TcpRawState) (l : Watchers) (h : Hooks) (t : Trace)
      → c.pcb ≡ some pcb
      → Ends Freed (tcp_raw_close ev (some pcb) conn (world c l h t))
  close-Freed c l h t mine = rw (tcp_raw_close_lem ev pcb c l h t mine) refl

  pub free_all-Freed :
      (c : TcpRawState) (l : Watchers) (h : Hooks) (t : Trace)
      → c.pcb ≡ some pcb
      → Ends Freed (free_all ev (some pcb) (world c l h t))
  free_all-Freed c l h t mine =
      rw (free_all_run env laws hd hu pcb c l h t) (close-Freed _ _ h _ mine)
