-- ===== src/Tcp/Flows.antt =====
-- The bytes that src/tcp_raw.cpp has taken in and passed on, read off the trace, in both
-- directions.
use ip2socks.Common.{
  ℕ, zero, suc, ◌≡◌, sym, ap, ◌∙◌, none, some, [], ◌∷◌, ◌++◌, append_assoc, append-nil, Bytes, take,
  drop, take-append-drop,
}
use ip2socks.System.{
  Trace, sent, received, tcp_written, tcp_flushed, tcp_closed, tcp_acked, closed, pbuf_copied,
  pbuf_freed, LwipErr, err_ok, err_mem, err_code, Pcb,
}

-- Read from the SOCKS5 socket.
abbrev pub down_in : Trace → Bytes
down_in [] = []
down_in (received fd (some bs) ∷ t) = down_in t ++ bs
down_in (e ∷ t) = down_in t

-- Accepted by `tcp_write`.
abbrev pub down_out : Trace → Bytes
down_out [] = []
down_out (tcp_written pcb bs err_ok ∷ t) = down_out t ++ bs
down_out (e ∷ t) = down_out t

-- Copied out of the stack's buffers.
abbrev pub up_in : Trace → Bytes
up_in [] = []
up_in (pbuf_copied bs ∷ t) = up_in t ++ bs
up_in (e ∷ t) = up_in t

-- Given to a `send` on the SOCKS5 socket that took some of them.
abbrev pub up_out : Trace → Bytes
up_out [] = []
up_out (sent fd bs (some (suc n)) ∷ t) = up_out t ++ bs
up_out (e ∷ t) = up_out t

-- What came in after the handshake's `hd` and `hu` went out in order, but for `down` and `up`,
-- which wait.
pub record Flows (hd hu down up : Bytes) (t : Trace) : Type 0 where
  pub down_exact : down_in t ≡ hd ++ (down_out t ++ down)
  pub up_exact : hu ++ up_in t ≡ up_out t ++ up

module _ {hd hu down up : Bytes} {t : Trace} (f : Flows hd hu down up t) where
  pub Flows-copied : (p : Bytes) → Flows hd hu down (up ++ p) (pbuf_copied p ∷ t)
  Flows-copied p = record {
    down_exact = f.down_exact;
    up_exact =
        sym (append_assoc hu (up_in t) p)
        ∙ ap (λ x. x ++ p) f.up_exact
        ∙ append_assoc (up_out t) up p;
  }

  pub Flows-sent : (fd n : ℕ) → Flows hd hu down [] (sent fd up (some (suc n)) ∷ t)
  Flows-sent fd n = record {
    down_exact = f.down_exact;
    up_exact = f.up_exact ∙ sym (append-nil (up_out t ++ up));
  }

  pub Flows-received :
      (fd : ℕ) (bs : Bytes) → Flows hd hu (down ++ bs) up (received fd (some bs) ∷ t)
  Flows-received fd bs = record {
    down_exact =
        ap (λ x. x ++ bs) f.down_exact
        ∙ append_assoc hd (down_out t ++ down) bs
        ∙ ap (λ x. hd ++ x) (append_assoc (down_out t) down bs);
    up_exact = f.up_exact;
  }

  pub Flows-written :
      (pcb : Pcb) (n : ℕ) → Flows hd hu (drop n down) up (tcp_written pcb (take n down) err_ok ∷ t)
  Flows-written pcb n = record {
    down_exact =
        f.down_exact
        ∙ ap (λ x. hd ++ (down_out t ++ x)) (sym (take-append-drop n down))
        ∙ ap (λ x. hd ++ x) (sym (append_assoc (down_out t) (take n down) (drop n down)));
    up_exact = f.up_exact;
  }

  -- Events that move no byte.
  pub Flows-closed : (fd : ℕ) → Flows hd hu down up (closed fd ∷ t)
  Flows-closed fd = record { down_exact = f.down_exact; up_exact = f.up_exact }

  pub Flows-tcp_closed : (pcb : Pcb) → Flows hd hu down up (tcp_closed pcb ∷ t)
  Flows-tcp_closed pcb = record { down_exact = f.down_exact; up_exact = f.up_exact }

  pub Flows-acked : (pcb : Pcb) (n : ℕ) → Flows hd hu down up (tcp_acked pcb n ∷ t)
  Flows-acked pcb n = record { down_exact = f.down_exact; up_exact = f.up_exact }

  pub Flows-freed : Flows hd hu down up (pbuf_freed ∷ t)
  Flows-freed = record { down_exact = f.down_exact; up_exact = f.up_exact }

  pub Flows-flushed : (pcb : Pcb) (e : LwipErr) → Flows hd hu down up (tcp_flushed pcb e ∷ t)
  Flows-flushed pcb e = record { down_exact = f.down_exact; up_exact = f.up_exact }

  pub Flows-mem : (pcb : Pcb) (bs : Bytes) → Flows hd hu down up (tcp_written pcb bs err_mem ∷ t)
  Flows-mem pcb bs = record { down_exact = f.down_exact; up_exact = f.up_exact }

  pub Flows-refused :
      (pcb : Pcb) (bs : Bytes) (n : ℕ) → Flows hd hu down up (tcp_written pcb bs (err_code n) ∷ t)
  Flows-refused pcb bs n = record { down_exact = f.down_exact; up_exact = f.up_exact }

  pub Flows-failed : (fd : ℕ) (bs : Bytes) → Flows hd hu down up (sent fd bs none ∷ t)
  Flows-failed fd bs = record { down_exact = f.down_exact; up_exact = f.up_exact }

  pub Flows-sent_nothing : (fd : ℕ) (bs : Bytes) → Flows hd hu down up (sent fd bs (some zero) ∷ t)
  Flows-sent_nothing fd bs = record { down_exact = f.down_exact; up_exact = f.up_exact }

  pub Flows-unread : (fd : ℕ) → Flows hd hu down up (received fd none ∷ t)
  Flows-unread fd = record { down_exact = f.down_exact; up_exact = f.up_exact }
