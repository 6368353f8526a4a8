-- ===== src/Tcp/Relaying.antt =====
-- `write_and_output` of src/tcp_raw.cpp keeps a connection live, and every byte accounted for.
use ip2socks.Common.{
  ℕ, ◌+◌, ◌-◌, ◌%◌, ◌^◌, ◌≤◌, ◌<◌, ◌≡◌, inl, inr, refl, Bool, false, Option, none, some, [], ◌∷◌,
  ltb, ◌==◌, if◌then◌else◌, arith, Bytes, length, drop, length-drop, drop_all, Bool-cases, ◌&&◌,
}
use ip2socks.System.{Env, Trace, tcp_flushed, pure, Pcb, LwipErr, err_ok, err_mem, err_code}
use ip2socks.Tcp.State.{TcpRawState, Watchers, Hooks, World, W}
use ip2socks.Tcp.Closing.{world}
use ip2socks.Tcp.Upstream.{is_ok}
use ip2socks.Tcp.Downstream.{
  write_loop, erase_front, flushed, send_length, send_waiting, send_data_lwip, write_and_output,
}
use ip2socks.Tcp.Flows.{Flows, Flows-flushed}
use ip2socks.Tcp.Invariant.{IsOpen, IsOpen-socks}
use ip2socks.Tcp.Writing.{Written, write_loop-Written}

module _ (env : Env) (hd hu : Bytes) (pcb : Pcb) (l : Watchers) (h : Hooks) where
  -- The connection is still live, nothing new waits, and every byte is accounted for.
  pub record Relayed (c : TcpRawState) (r : Option (Unit {0} × World)) : Type 0 where
    pub after : TcpRawState
    pub log : Trace
    pub ended : r ≡ some (tt, world after l h log)
    pub still : IsOpen pcb after l h
    pub idle : after.buf ≡ []
    pub shorter : length after.socks_buf ≤ length c.socks_buf
    pub flows : Flows hd hu after.socks_buf [] log

  unchanged :
      (c : TcpRawState) (t : Trace)
      → IsOpen pcb c l h
      → c.buf ≡ []
      → Flows hd hu c.socks_buf [] t
      → Relayed c (some (tt, world c l h t))
  unchanged c t o empty f = record {
    after = c;
    log = t;
    ended = refl;
    still = o;
    idle = empty;
    shorter = omega arith;
    flows = f;
  }

  pub cleared : Bool → LwipErr → Bool
  cleared b e = if is_ok e && b then false else b

  -- `es` once `n` bytes went out and `tcp_output` returned `e`.
  abbrev pub rest_of : TcpRawState → ℕ → LwipErr → TcpRawState
  rest_of c n e = record c {
    socks_buf = drop n c.socks_buf;
    socks_buf_used = (c.socks_buf_used + 2 ^ 16 - n) % 2 ^ 16;
    lwip_blocked = cleared c.lwip_blocked e;
  }

  pub flushed_run :
      (c : TcpRawState) (t : Trace) (n : ℕ)
      → n ≤ length c.socks_buf
      → let e = env.tcp_output t pcb in
        flushed env pcb n (world c l h t)
        ≡ some (tt, world (rest_of c n e) l h (tcp_flushed pcb e ∷ t))
  unfolding flushed erase_front cleared
  flushed_run c t n le = ground (arith, drop_all n c.socks_buf)

  flushed-Relayed :
      (c : TcpRawState) (t : Trace) (n : ℕ)
      → IsOpen pcb c l h
      → c.buf ≡ []
      → n ≤ length c.socks_buf
      → Flows hd hu (drop n c.socks_buf) [] t
      → Relayed c (flushed env pcb n (world c l h t))
  flushed-Relayed c t n o empty le f =
      let e = env.tcp_output t pcb in
      let cut = length-drop n c.socks_buf in
      record {
        after = rest_of c n e;
        log = tcp_flushed pcb e ∷ t;
        ended = flushed_run c t n le;
        still =
            IsOpen-socks o (drop n c.socks_buf) _ (cleared c.lwip_blocked e)
              (omega (arith, o.socks_exact, o.socks_bound, cut))
              (omega (arith, o.socks_bound, cut));
        idle = empty;
        shorter = omega (arith, cut);
        flows = Flows-flushed f pcb e;
      }

  -- What `send_waiting` does with the result of the loop.
  abbrev after_loop : LwipErr × ℕ → W (Unit {0})
  after_loop (err, len) = if is_ok err then flushed env pcb len else pure tt

  after_loop-Relayed :
      (c : TcpRawState) (len : ℕ) (r : Option ((LwipErr × ℕ) × Trace))
      → IsOpen pcb c l h
      → c.buf ≡ []
      → len ≤ length c.socks_buf
      → Written env pcb c.socks_buf hd hu [] len r
      → Relayed c (elim r [ none ↦ none | some (a, t) ↦ after_loop a (world c l h t) ])
  after_loop-Relayed c len none o empty le v = absurd v
  after_loop-Relayed c len (some ((err_ok, n), t)) o empty le v =
      flushed-Relayed c t n o empty (omega arith) v.1
  after_loop-Relayed c len (some ((err_mem, n), t)) o empty le v = unchanged c t o empty v
  after_loop-Relayed c len (some ((err_code k, n), t)) o empty le v = unchanged c t o empty v

  pub send_length-le : (c : TcpRawState) (t : Trace) → send_length env pcb c t ≤ c.socks_buf_used
  unfolding send_length
  send_length-le c t = ground arith

  pub send_some :
      (c : TcpRawState) (t : Trace)
      → let n = send_length env pcb c t in
        0 < n
        → send_waiting env pcb (world c l h t) ≡ elim (write_loop env n pcb c.socks_buf n t) [
          | none ↦ none
          | some (a, t') ↦ after_loop a (world c l h t')
        ]
  unfolding send_waiting
  send_some c t pos = ground arith

  send_none :
      (c : TcpRawState) (t : Trace)
      → ltb 0 (send_length env pcb c t) ≡ false
      → send_waiting env pcb (world c l h t) ≡ some (tt, world c l h t)
  unfolding send_waiting
  send_none c t e = ground arith

  send_waiting-Relayed :
      (c : TcpRawState) (t : Trace)
      → IsOpen pcb c l h
      → c.buf ≡ []
      → Flows hd hu c.socks_buf [] t
      → Relayed c (send_waiting env pcb (world c l h t))
  send_waiting-Relayed c t o empty f =
      let n = send_length env pcb c t in
      let le : n ≤ length c.socks_buf = omega (arith, send_length-le c t, o.socks_exact) in
      elim (Bool-cases (ltb 0 n)) [
        | inr e ↦ rw (send_none c t e) (unchanged c t o empty f)
        | inl e ↦
            let pos : 0 < n = ground arith in
            rw (send_some c t pos) (
              after_loop-Relayed c n _ o empty le
                (write_loop-Written env pcb c.socks_buf hd hu [] n n t pos (omega arith) le f))
      ]

  -- `write_and_output` on a live connection leaves it live.
  pub write_and_output-Relayed :
      (c : TcpRawState) (t : Trace)
      → IsOpen pcb c l h
      → c.buf ≡ []
      → Flows hd hu c.socks_buf [] t
      → Relayed c (write_and_output env (some pcb) (world c l h t))
  unfolding write_and_output send_data_lwip
  write_and_output-Relayed c t o empty f = elim (Bool-cases (env.pcb_state t pcb == 0)) [
    | inl e ↦ rw e (unchanged c t o empty f)
    | inr e ↦ rw e (send_waiting-Relayed c t o empty f)
  ]
