-- ===== src/Tcp/Sending.antt =====
-- `tcp_raw_send` of src/tcp_raw.cpp keeps the invariant of a relayed connection.
use ip2socks.Common.{
  ℕ, zero, suc, ◌<◌, ◌≡◌, inl, inr, refl, sym, ap, ◌∙◌, Option, none, some, [], ◌∷◌, ◌++◌, ltb,
  arith, Bytes, length, take, Bool-cases,
}
use ip2socks.System.{Env, Trace, sent, Pcb}
use ip2socks.Tcp.State.{TcpRawState, Ev, EvLaws, Watchers, Hooks, c_str_bytes}
use ip2socks.Tcp.Closing.{world}
use ip2socks.Tcp.Upstream.{after_send, tcp_raw_send}
use ip2socks.Tcp.Flows.{Flows, Flows-sent, Flows-failed, Flows-sent_nothing, Flows-acked}
use ip2socks.Tcp.Invariant.{IsOpen, IsValid, Ends, close-Valid}

take_front : (xs ys : Bytes) → take (length xs) (xs ++ ys) ≡ xs
take_front [] ys = refl
take_front (x ∷ xs) ys = ap (◌∷◌ x) (take_front xs ys)

pub c_str_bytes-whole :
    {S : Type 0} (s : Bytes) (n : ℕ) (st : S) → n ≡ length s → c_str_bytes s n st ≡ some (s, st)
unfolding c_str_bytes
c_str_bytes-whole s n st e = rw e (ground (arith, take_front s (0 ∷ [])))

nil_of_length : (xs : Bytes) → length xs ≡ 0 → xs ≡ []
nil_of_length [] e = refl
nil_of_length (x ∷ xs) e = absurd (omega arith)

module _ (env : Env) {ev : Ev} (laws : EvLaws ev) (hd hu : Bytes) (pcb : Pcb) where
  after_send-Valid :
      (r : Option ℕ) (c : TcpRawState) (l : Watchers) (h : Hooks) (t : Trace)
      → IsOpen pcb c l h
      → Flows hd hu c.socks_buf c.buf t
      → Ends
          (IsValid hd hu pcb)
          (after_send env ev pcb c.buf_used r (world c l h (sent c.socks_fd c.buf r ∷ t)))
  unfolding after_send
  after_send-Valid none c l h t o f =
      close-Valid laws pcb c l h _ o.mine (inl o.fd_pos) (Flows-failed f c.socks_fd c.buf)
  after_send-Valid (some zero) c l h t o f =
      close-Valid laws pcb c l h _ o.mine (inl o.fd_pos) (Flows-sent_nothing f c.socks_fd c.buf)
  after_send-Valid (some (suc n)) c l h t o f = (
    record {
      mine = o.mine;
      relaying = o.relaying;
      buf_exact = refl;
      socks_exact = o.socks_exact;
      socks_bound = o.socks_bound;
      fd_pos = o.fd_pos;
      fd_watched = o.fd_watched;
      io_on = o.io_on;
      once = o.once;
      hooked = o.hooked;
    },
    refl,
    Flows-acked (Flows-sent f c.socks_fd n) pcb c.buf_used,
  )

  pub send_run :
      (c : TcpRawState) (l : Watchers) (h : Hooks) (t : Trace)
      → c.buf_used ≡ length c.buf
      → 0 < c.buf_used
      → let r = env.send t c.socks_fd c.buf in
        tcp_raw_send env ev pcb (world c l h t)
        ≡ after_send env ev pcb c.buf_used r (world c l h (sent c.socks_fd c.buf r ∷ t))
  unfolding tcp_raw_send
  send_run c l h t exact pos =
      ground (arith, c_str_bytes-whole c.buf c.buf_used (world c l h t) exact)

  pub send_idle :
      (c : TcpRawState) (l : Watchers) (h : Hooks) (t : Trace)
      → c.buf_used ≡ 0
      → tcp_raw_send env ev pcb (world c l h t) ≡ some (tt, world c l h t)
  unfolding tcp_raw_send
  send_idle c l h t e = rw e

  -- `tcp_raw_send` leaves nothing waiting, or closes the connection.
  pub send-Valid :
      (c : TcpRawState) (l : Watchers) (h : Hooks) (t : Trace)
      → IsOpen pcb c l h
      → Flows hd hu c.socks_buf c.buf t
      → Ends (IsValid hd hu pcb) (tcp_raw_send env ev pcb (world c l h t))
  send-Valid c l h t o f = elim (Bool-cases (ltb 0 c.buf_used)) [
    | inl e ↦ rw (send_run c l h t o.buf_exact (ground arith)) (after_send-Valid _ c l h t o f)
    | inr e ↦
        let idle : c.buf_used ≡ 0 = ground arith in
        let empty = nil_of_length c.buf (sym o.buf_exact ∙ idle) in
        rw (send_idle c l h t idle) (o, empty, rw empty at f)
  ]
