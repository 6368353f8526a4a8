-- ===== src/Tcp/Ending/Upstream.antt =====
-- Which callbacks of the stack end a live connection of src/tcp_raw.cpp.
use mathlib.Core.Path.{subst}
use ip2socks.Common.{
  ℕ, zero, suc, ◌+◌, ◌%◌, ◌^◌, ◌<◌, ◌≡◌, ◌⊎◌, inl, inr, ap, Option, none, some, [], ◌∷◌, ◌++◌,
  Bytes, length, length-append, ltb, arith, Bool-cases,
}
use ip2socks.System.{
  Env, Trace, Pcb, LwipErr, err_ok, err_mem, err_code, pbuf_copied, pbuf_freed, ◌>>◌,
}
use ip2socks.Tcp.State.{
  TcpRawStates, es_none, es_accepted, es_received, es_closing, TcpRawState, Ev, EvLaws, Watchers,
  Hooks, conn,
}
use ip2socks.Tcp.Close.{tcp_raw_close}
use ip2socks.Tcp.Closing.{world}
use ip2socks.Tcp.Upstream.{
  after_send, tcp_raw_send, append_payload, recv_payload, recv_failed, tcp_raw_recv,
}
use ip2socks.Tcp.Sending.{send_run, send_idle}
use ip2socks.Tcp.UpstreamKeeps.{appended, append_run, recv_accepted_run, recv_closed_run, idle_of}
use ip2socks.Tcp.Events.{recv_called}
use ip2socks.Tcp.Invariant.{IsOpen, IsOpen-buf, IsOpen-received, Ends, Ends-pure, Ends-after}
use ip2socks.Tcp.Safety.{Fits}
use ip2socks.Tcp.Ending.{
  SendFails, Closes, FreedIff, died, lives, positive, with_reason, close-Freed,
}

module _ (env : Env) {ev : Ev} (laws : EvLaws ev) (hd hu : Bytes) (pcb : Pcb) where
  after_send-FreedIff :
      (r : Option ℕ) (n : ℕ) (c : TcpRawState) (l : Watchers) (h : Hooks) (t : Trace)
      → c.pcb ≡ some pcb
      → Ends (FreedIff (SendFails r)) (after_send env ev pcb n r (world c l h t))
  unfolding after_send
  after_send-FreedIff none n c l h t mine = died _ tt (close-Freed env laws hd hu pcb c l h t mine)
  after_send-FreedIff (some zero) n c l h t mine =
      died _ tt (close-Freed env laws hd hu pcb c l h t mine)
  after_send-FreedIff (some (suc m)) n c l h t mine = lives (λ p. p)

  abbrev SentFails : Bytes → ℕ → Trace → Type 0
  SentFails p fd t = (0 < length p) × SendFails (env.send t fd p)

  send-FreedIff :
      (c : TcpRawState) (l : Watchers) (h : Hooks) (t : Trace)
      → IsOpen pcb c l h
      → Ends (FreedIff (SentFails c.buf c.socks_fd t)) (tcp_raw_send env ev pcb (world c l h t))
  send-FreedIff c l h t o = elim (Bool-cases (ltb 0 c.buf_used)) [
    | inl e ↦
        let some_bytes = positive c.buf_used e in
        let pos : 0 < length c.buf = omega (arith, o.buf_exact, some_bytes) in
        rw (send_run env laws hd hu pcb c l h t o.buf_exact some_bytes)
          (with_reason _ _ pos (after_send-FreedIff _ _ c l h _ o.mine))
    | inr e ↦
        let idle : c.buf_used ≡ 0 = ground arith in
        rw (send_idle env laws hd hu pcb c l h t idle)
          (lives (λ p. omega (arith, o.buf_exact, idle, p.0)))
  ]

  payload-FreedIff :
      (c : TcpRawState) (l : Watchers) (h : Hooks) (t : Trace) (p : Bytes)
      → IsOpen pcb c l h
      → c.buf ≡ []
      → length p < 65536
      → Ends
          (FreedIff (SentFails p c.socks_fd (pbuf_copied p ∷ t)))
          ((append_payload env ev p >> tcp_raw_send env ev pcb) (world c l h t))
  payload-FreedIff c l h t p o empty fits =
      let exact : (c.buf_used + length p) % 2 ^ 16 ≡ length (c.buf ++ p) =
        omega (arith, o.buf_exact, ap length empty, length-append c.buf p) in
      let sent_all =
        send-FreedIff (appended env laws hd hu pcb c p) l h (pbuf_copied p ∷ t)
          (IsOpen-buf o (c.buf ++ p) _ exact) in
      let same : c.buf ++ p ≡ p = ap (λ x. x ++ p) empty in
      rw (append_run env laws hd hu pcb c l h t p fits) (
        subst
          (λ b. Ends (FreedIff (SentFails b c.socks_fd (pbuf_copied p ∷ t))) (
            tcp_raw_send env ev pcb
              (world (appended env laws hd hu pcb c p) l h (pbuf_copied p ∷ t))))
          same sent_all)

  received-FreedIff :
      (c : TcpRawState) (l : Watchers) (h : Hooks) (t : Trace) (p : Bytes)
      → IsOpen pcb c l h
      → c.buf ≡ []
      → length p < 65536
      → Ends
          (FreedIff (SentFails p c.socks_fd (pbuf_copied p ∷ t)))
          (recv_payload env ev es_received pcb p (world c l h t))
  unfolding recv_payload
  received-FreedIff c l h t p o empty fits =
      Ends-after (FreedIff (SentFails p c.socks_fd (pbuf_copied p ∷ t))) (append_payload env ev p)
        (tcp_raw_send env ev pcb) err_ok (world c l h t) (payload-FreedIff c l h t p o empty fits)

  recv_payload-FreedIff :
      (s : TcpRawStates) (c : TcpRawState) (l : Watchers) (h : Hooks) (t : Trace) (p : Bytes)
      → (s ≡ es_accepted) ⊎ (s ≡ es_received)
      → IsOpen pcb c l h
      → c.buf ≡ []
      → length p < 65536
      → Ends
          (FreedIff (SentFails p c.socks_fd (pbuf_copied p ∷ t)))
          (recv_payload env ev s pcb p (world c l h t))
  recv_payload-FreedIff es_none c l h t p s o empty fits = absurd (ground arith)
  recv_payload-FreedIff es_closing c l h t p s o empty fits = absurd (ground arith)
  recv_payload-FreedIff es_accepted c l h t p s o empty fits =
      rw (recv_accepted_run env laws hd hu pcb c l h t p) (
        received-FreedIff (record c { state = es_received }) l h t p (IsOpen-received o) empty fits)
  recv_payload-FreedIff es_received c l h t p s o empty fits =
      received-FreedIff c l h t p o empty fits

  failed-FreedIff :
      (c : TcpRawState) (l : Watchers) (h : Hooks) (t : Trace) (e : LwipErr)
      → c.buf_used ≡ 0
      → Ends (FreedIff ⊥) (recv_failed env ev pcb e (world c l h t))
  unfolding recv_failed
  failed-FreedIff c l h t e idle =
      Ends-pure (FreedIff ⊥) (tcp_raw_send env ev pcb) e (world c l h (pbuf_freed ∷ t))
        (rw (send_idle env laws hd hu pcb c l h (pbuf_freed ∷ t) idle) (lives (λ p. p)))

  pub recv-FreedIff :
      (c : TcpRawState) (l : Watchers) (h : Hooks) (t : Trace) (p : Option Bytes) (e : LwipErr)
      → Fits (recv_called p e)
      → IsOpen pcb c l h
      → c.buf ≡ []
      → Ends
          (FreedIff (Closes env c l t (recv_called p e)))
          (tcp_raw_recv env ev conn pcb p e (world c l h t))
  unfolding tcp_raw_recv
  recv-FreedIff c l h t none e fits o empty =
      rw (recv_closed_run env laws hd hu pcb c l h t (idle_of env laws hd hu pcb o empty)) (
        Ends-pure (FreedIff (Unit {0})) (tcp_raw_close ev (some pcb) conn) err_ok _ (
          died _ tt
            (close-Freed env laws hd hu pcb (record c { state = es_closing }) l h t o.mine)))
  recv-FreedIff c l h t (some bs) err_ok fits o empty =
      recv_payload-FreedIff c.state c l h t bs o.relaying o empty fits
  recv-FreedIff c l h t (some bs) err_mem fits o empty =
      failed-FreedIff c l h t err_mem (idle_of env laws hd hu pcb o empty)
  recv-FreedIff c l h t (some bs) (err_code n) fits o empty =
      failed-FreedIff c l h t (err_code n) (idle_of env laws hd hu pcb o empty)
