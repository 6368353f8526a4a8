-- ===== src/Tcp/Draining.antt =====
-- How the buffer of src/tcp_raw.cpp for the stack, once full, empties again.
pub mod Rounds
use mathlib.Core.Path.{subst}
use ip2socks.Common.{
  ℕ, zero, suc, ◌+◌, ◌≤◌, ◌<◌, ◌≡◌, inl, inr, refl, sym, ap, ◌∙◌, true, false, if◌then◌else◌,
  Option, none, some, List, [], ◌∷◌, ◌++◌, Bytes, length, take, drop, length-drop, take-append-drop,
  append_assoc, ltb, ◌==◌, arith, Bool-cases,
}
use ip2socks.System.{pure, ◌>>◌, Env, Trace, Pcb, err_ok, tcp_written, tcp_flushed}
use ip2socks.Tcp.State.{TcpRawState, Ev, EvLaws, Watchers, Hooks, World}
use ip2socks.Tcp.Closing.{world}
use ip2socks.Tcp.Downstream.{
  write_loop, send_length, send_data_lwip, write_and_output, read_cb, block_cb,
}
use ip2socks.Tcp.Writing.{round_ok}
use ip2socks.Tcp.Relaying.{rest_of, flushed_run, send_length-le, send_some}
use ip2socks.Tcp.DownstreamKeeps.{read_full, block_run}
use ip2socks.Tcp.Events.{Input, socks_readable, block_expired, stop_block, deliver, run}
use ip2socks.Tcp.Flows.{down_out}
use ip2socks.Tcp.Invariant.{IsOpen, IsOpen-socks, IsOpen-timers, IsValid, Valid}
use ip2socks.Tcp.Safety.{all_hooks}
use ip2socks.Tcp.Timeout.{either}

-- A stack whose connection is open and whose send buffer always has room.
pub record Takes (env : Env) (pcb : Pcb) : Type 0 where
  pub is_open : (t : Trace) → (env.pcb_state t pcb == 0) ≡ false
  pub has_room : (t : Trace) → 0 < env.tcp_sndbuf t pcb
  pub accepts : (t : Trace) (bs : Bytes) → env.tcp_write t pcb bs ≡ err_ok

-- The SOCKS5 socket is readable and the block timer expires, so many times.
abbrev pub rounds : ℕ → List Input
rounds zero = []
rounds (suc n) = socks_readable ∷ block_expired ∷ rounds n

module _ (env : Env) (pcb : Pcb) (takes : Takes env pcb) where
  loop_ok :
      (fuel len : ℕ) (sb : Bytes) (t : Trace)
      → 0 < fuel
      → len ≤ length sb
      → write_loop env fuel pcb sb len t
        ≡ some ((err_ok, len), tcp_written pcb (take len sb) err_ok ∷ t)
  unfolding write_loop
  loop_ok zero len sb t pos le = absurd (omega arith)
  loop_ok (suc fuel) len sb t pos le =
      round_ok env pcb sb (write_loop env fuel pcb sb) len t le (takes.accepts t _)

  pub send_length-pos :
      (c : TcpRawState) (t : Trace) → 0 < c.socks_buf_used → 0 < send_length env pcb c t
  unfolding send_length
  send_length-pos c t pos = ground (arith, takes.has_room t)

  -- The trace once `n` bytes were written.
  abbrev pub written : Bytes → ℕ → Trace → Trace
  written sb n t = tcp_written pcb (take n sb) err_ok ∷ t

  module _ (l : Watchers) (h : Hooks) where
    abbrev pub drained : TcpRawState → ℕ → Trace → TcpRawState
    drained c n t = rest_of env [] [] pcb l h c n (env.tcp_output (written c.socks_buf n t) pcb)

    abbrev pub flushed_trace : TcpRawState → ℕ → Trace → Trace
    flushed_trace c n t =
        let u = written c.socks_buf n t in tcp_flushed pcb (env.tcp_output u pcb) ∷ u

    -- `write_and_output` gives the stack as much as it has room for.
    pub write_run :
        (c : TcpRawState) (t : Trace)
        → c.socks_buf_used ≡ length c.socks_buf
        → 0 < c.socks_buf_used
        → let n = send_length env pcb c t in
          write_and_output env (some pcb) (world c l h t)
          ≡ some (tt, world (drained c n t) l h (flushed_trace c n t))
    unfolding write_and_output send_data_lwip
    write_run c t exact pos =
        let n = send_length env pcb c t in
        let positive = send_length-pos c t pos in
        let le : n ≤ length c.socks_buf =
          omega (arith, send_length-le env [] [] pcb l h c t, exact) in
        rw
          (
            takes.is_open t,
            send_some env [] [] pcb l h c t positive,
            loop_ok n n c.socks_buf t positive le,
          )
          (flushed_run env [] [] pcb l h c (written c.socks_buf n t) n le)

    pub drained-IsOpen :
        (c : TcpRawState) (t : Trace) (n : ℕ)
        → IsOpen pcb c l h
        → n ≤ length c.socks_buf
        → IsOpen pcb (record (drained c n t) { lwip_blocked = false }) l h
    drained-IsOpen c t n o le =
        let cut = length-drop n c.socks_buf in
        IsOpen-socks o (drop n c.socks_buf) _ false
          (omega (arith, o.socks_exact, o.socks_bound, cut)) (omega (arith, o.socks_bound, cut))
