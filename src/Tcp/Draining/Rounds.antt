-- ===== src/Tcp/Draining/Rounds.antt =====
-- The rounds in which the full buffer of src/tcp_raw.cpp empties again.
use mathlib.Core.Path.{subst}
use ip2socks.Common.{
  ℕ, zero, suc, ◌+◌, ◌≤◌, ◌<◌, ◌≡◌, inl, inr, refl, sym, ap, ◌∙◌, true, false, if◌then◌else◌,
  Option, none, some, List, [], ◌∷◌, ◌++◌, Bytes, length, take, drop, length-drop, take-append-drop,
  append_assoc, ltb, arith, Bool-cases,
}
use ip2socks.System.{pure, ◌>>◌, Env, Trace, Pcb}
use ip2socks.Tcp.State.{TcpRawState, Ev, EvLaws, Watchers, Hooks, World}
use ip2socks.Tcp.Closing.{world}
use ip2socks.Tcp.Downstream.{send_length, read_cb, block_cb}
use ip2socks.Tcp.Relaying.{send_length-le}
use ip2socks.Tcp.DownstreamKeeps.{read_full, block_run}
use ip2socks.Tcp.Events.{Input, socks_readable, block_expired, stop_block, deliver, run}
use ip2socks.Tcp.Flows.{down_out}
use ip2socks.Tcp.Invariant.{IsOpen, IsOpen-socks, IsOpen-timers, IsValid, Valid}
use ip2socks.Tcp.Safety.{all_hooks}
use ip2socks.Tcp.Timeout.{either}
use ip2socks.Tcp.Draining.{
  Takes, rounds, send_length-pos, drained, flushed_trace, write_run, drained-IsOpen,
}

module _ (env : Env) (pcb : Pcb) (takes : Takes env pcb) where
  module _ {ev : Ev} (laws : EvLaws ev) where
    abbrev registered : Hooks
    registered = all_hooks env laws [] [] pcb

    abbrev waiting : Watchers → Watchers
    waiting l = record l { timeout = ev.timer_again l.timeout; block = ev.timer_start l.block }

    -- A full buffer is not read into: the block timer is started.
    readable_step :
        (c : TcpRawState) (l : Watchers) (t : Trace)
        → l.io ≡ true
        → 1514 < c.socks_buf_used
        → deliver env ev pcb socks_readable (world c l registered t)
          ≡ some (tt, world (record c { lwip_blocked = true }) (waiting l) registered t)
    unfolding deliver
    readable_step c l t on full =
        either
          (λ b.
            (if b then read_cb env ev else pure tt) (world c l registered t)
            ≡ some (tt, world (record c { lwip_blocked = true }) (waiting l) registered t))
          l.io (read_full env laws [] [] pcb c l registered t full) (λ e. absurd (cc (e, on)))

    abbrev unblocked : Watchers → Watchers
    unblocked l = record l { block = ev.timer_stop l.block }

    -- The block timer expires, and what the stack has room for is written.
    block_step :
        (c : TcpRawState) (l : Watchers) (t : Trace)
        → c.pcb ≡ some pcb
        → l.block.active ≡ true
        → c.socks_buf_used ≡ length c.socks_buf
        → 0 < c.socks_buf_used
        → let n = send_length env pcb c t in
          deliver env ev pcb block_expired (world c l registered t)
          ≡ some (
            tt,
            world
                (record (drained env pcb takes (unblocked l) registered c n t) {
                  lwip_blocked = false;
                })
                (unblocked (unblocked l))
                registered
                (flushed_trace env pcb takes (unblocked l) registered c n t),
          )
    unfolding deliver
    block_step c l t mine on exact pos =
        let n = send_length env pcb c t in
        let after : TcpRawState = drained env pcb takes (unblocked l) registered c n t in
        let u = flushed_trace env pcb takes (unblocked l) registered c n t in
        let result =
          world (record after { lwip_blocked = false }) (unblocked (unblocked l)) registered u in
        either
          (λ b.
            (if b then (stop_block env ev pcb >> block_cb env ev) else pure tt)
              (world c l registered t)
            ≡ some (tt, result))
          l.block.active
          (block_run env laws [] [] pcb c after (unblocked l) registered t u mine
            (write_run env pcb takes (unblocked l) registered c t exact pos))
          (λ e. absurd (cc (e, on)))

    -- The stack has taken at least a byte more, and no byte is lost or out of order.
    abbrev Progress : TcpRawState → Trace → World → Type 0
    Progress c t w =
        (c' : TcpRawState) × (l' : Watchers) × (t' : Trace) × (w ≡ world c' l' registered t')
        × IsOpen pcb c' l' registered
        × (length c'.socks_buf < length c.socks_buf)
        × (down_out t' ++ c'.socks_buf ≡ down_out t ++ c.socks_buf)

    two_steps :
        (is : List Input) (w w1 w2 : World)
        → deliver env ev pcb socks_readable w ≡ some (tt, w1)
        → deliver env ev pcb block_expired w1 ≡ some (tt, w2)
        → run env ev pcb (socks_readable ∷ block_expired ∷ is) w ≡ run env ev pcb is w2
    unfolding run
    two_steps is w w1 w2 e e' = rw (e, e', run)

    round-Progress :
        (c : TcpRawState) (l : Watchers) (t : Trace)
        → IsOpen pcb c l registered
        → 1514 < c.socks_buf_used
        → (w : World) × ((is : List Input)
            → run env ev pcb (socks_readable ∷ block_expired ∷ is) (world c l registered t)
              ≡ run env ev pcb is w)
          × Progress c t w
    round-Progress c l t o full =
        let c1 : TcpRawState = record c { lwip_blocked = true } in
        let l1 = waiting l in
        let n = send_length env pcb c1 t in
        let l2 = unblocked l1 in
        let step1 = readable_step c l t o.io_on full in
        let step2 =
          block_step c1 l1 t o.mine (laws.start_active l.block) o.socks_exact (omega arith) in
        let once : (ev.timer_again l.timeout).repeat ≡ 0 = laws.again_repeat l.timeout ∙ o.once in
        let le : n ≤ length c.socks_buf =
          omega (arith, send_length-le env [] [] pcb l1 registered c1 t, o.socks_exact) in
        let o1 =
          IsOpen-timers
            (IsOpen-socks o c.socks_buf c.socks_buf_used true o.socks_exact o.socks_bound)
            (ev.timer_again l.timeout) (ev.timer_start l.block) once in
        let o2 =
          IsOpen-timers o1 (ev.timer_again l.timeout) (ev.timer_stop (ev.timer_start l.block))
            once in
        let bytes : (down_out t ++ take n c.socks_buf) ++ drop n c.socks_buf
            ≡ down_out t ++ c.socks_buf =
          append_assoc (down_out t) (take n c.socks_buf) (drop n c.socks_buf)
          ∙ ap (λ x. down_out t ++ x) (take-append-drop n c.socks_buf) in
        let shorter : length (drop n c.socks_buf) < length c.socks_buf = omega (
          arith,
          length-drop n c.socks_buf,
          send_length-pos env pcb takes c1 t (omega arith),
          le,
        ) in
        (
          _,
          λ is. two_steps is _ _ _ step1 step2,
          (
            _,
            _,
            _,
            refl,
            IsOpen-timers (drained-IsOpen env pcb takes l2 registered c1 t n o2 le)
                (ev.timer_again l.timeout) (ev.timer_stop (ev.timer_stop (ev.timer_start l.block)))
                once,
            shorter,
            bytes,
          ),
        )

    -- There is room again, and what no longer waits was given to the stack, in order.
    abbrev HasRoom : TcpRawState → Trace → World → Type 0
    HasRoom c t w =
        (c' : TcpRawState) × (w.es ≡ some c')
        × (length c'.socks_buf ≤ 1514)
        × (down_out w.trace ++ c'.socks_buf ≡ down_out t ++ c.socks_buf)

    abbrev Drains : ℕ → TcpRawState → Trace → World → Type 0
    Drains n c t w =
        (k : ℕ) × (k ≤ n)
        × (w' : World) × (run env ev pcb (rounds k) w ≡ some (tt, w'))
        × HasRoom c t w'

    over : {n : ℕ} → ltb 1514 n ≡ true → 1514 < n
    over e = ground arith

    more :
        (n : ℕ) (c c' : TcpRawState) (t t' : Trace) (w w' : World)
        → ((is : List Input)
            → run env ev pcb (socks_readable ∷ block_expired ∷ is) w ≡ run env ev pcb is w')
        → down_out t' ++ c'.socks_buf ≡ down_out t ++ c.socks_buf
        → Drains n c' t' w'
        → Drains (suc n) c t w
    more n c c' t t' w w' step bytes (k, le, u, ran, (d, e, room, bytes')) =
        (suc k, omega arith, u, step (rounds k) ∙ ran, (d, e, room, bytes' ∙ bytes))

    drains :
        (n : ℕ) (c : TcpRawState) (l : Watchers) (t : Trace)
        → IsOpen pcb c l registered
        → length c.socks_buf ≤ n + 1514
        → Drains n c t (world c l registered t)
    drains zero c l t o le =
        (0, omega arith, world c l registered t, unfold run in refl, (c, refl, le, refl))
    drains (suc n) c l t o le = elim (Bool-cases (ltb 1514 (length c.socks_buf))) [
      | inr e ↦ (
        0,
        omega arith,
        world c l registered t,
        unfold run in refl,
        (c, refl, ground arith, refl),
      )
      | inl e ↦
          let full : 1514 < c.socks_buf_used = omega (arith, over e, o.socks_exact) in
          let (w1, step, (c1, l1, t1, same, o1, shorter, bytes)) = round-Progress c l t o full in
          more n c c1 t t1 (world c l registered t) w1 step bytes
            (subst (Drains n c1 t1) (sym same) (drains n c1 l1 t1 o1 (omega (arith, shorter, le))))
    ]

    es-Drains :
        (es : Option TcpRawState) (c : TcpRawState) (l : Watchers) (h : Hooks) (t : Trace)
        (hd hu : Bytes)
        → Valid hd hu pcb es l h t
        → es ≡ some c
        → Drains 1514 c t (record { es = es; loop = l; hooks = h; trace = t })
    es-Drains none c l h t hd hu v e = absurd (cc e)
    es-Drains (some c') c l h t hd hu (o, empty, f) e =
        let o' : IsOpen pcb c' l registered = subst (IsOpen pcb c' l) o.hooked o in
        let same : c' ≡ c = cc in
        subst (λ k. Drains 1514 k t (world c' l h t)) same
          (subst (λ k. Drains 1514 c' t (world c' l k t)) (sym o.hooked)
            (drains 1514 c' l t o' (omega (arith, o.socks_bound))))

    -- While the stack has room and accepts what it is given, a live connection that holds the
    -- invariant has room for a read again after at most 1514 times a readable SOCKS5 socket and an
    -- expired block timer. It is still live then, and the bytes that no longer wait were given to
    -- the stack, in order.
    pub full_buffer_drains :
        (hd hu : Bytes) (c : TcpRawState) (w : World)
        → IsValid hd hu pcb w
        → w.es ≡ some c
        → (k : ℕ) × (k ≤ 1514)
          × (w' : World) × (run env ev pcb (rounds k) w ≡ some (tt, w'))
          × ((c' : TcpRawState) × (w'.es ≡ some c')
              × (length c'.socks_buf ≤ 1514)
              × (down_out w'.trace ++ c'.socks_buf ≡ down_out w.trace ++ c.socks_buf))
    full_buffer_drains hd hu c w v e = es-Drains w.es c w.loop w.hooks w.trace hd hu v e
