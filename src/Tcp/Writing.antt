-- ===== src/Tcp/Writing.antt =====
-- The loop of `send_data_lwip` of src/tcp_raw.cpp ends, and every byte is accounted for.
use ip2socks.Common.{
  ℕ, zero, suc, ◌≤◌, ◌<◌, ◌≡◌, inl, inr, refl, ap, true, Option, none, some, [], ◌∷◌, ◌++◌, ltb,
  if◌then◌else◌, arith, Bytes, length, take, drop, Bool-cases,
}
use ip2socks.System.{Env, Trace, tcp_written, pure, Pcb, Cmd, LwipErr, err_ok, err_mem, err_code}
use ip2socks.Tcp.State.{c_str_bytes}
use ip2socks.Tcp.Downstream.{less, write_round, write_loop}
use ip2socks.Tcp.Flows.{Flows, Flows-written, Flows-mem, Flows-refused}

take_part : (n : ℕ) (xs ys : Bytes) → n ≤ length xs → take n (xs ++ ys) ≡ take n xs
take_part zero xs ys h = refl
take_part (suc n) [] ys h = elim h [ ]
take_part (suc n) (x ∷ xs) ys h = ap (◌∷◌ x) (take_part n xs ys (omega arith))

c_str_bytes-part :
    {S : Type 0} (s : Bytes) (n : ℕ) (st : S)
    → n ≤ length s
    → c_str_bytes s n st ≡ some (take n s, st)
unfolding c_str_bytes
c_str_bytes-part s n st h = ground (arith, take_part n s (0 ∷ []) h)

module _ (env : Env) (pcb : Pcb) (sb : Bytes) where
  less-lt :
      (len : ℕ) (t : Trace)
      → ltb 1 (less env pcb len t) ≡ true
      → (less env pcb len t < len) × (1 < less env pcb len t)
  unfolding less
  less-lt len t h = ground arith

  module _ (again : ℕ → Cmd Trace (LwipErr × ℕ)) (len : ℕ) (t : Trace)
      (fits : len ≤ length sb) where
    pub round_ok :
        env.tcp_write t pcb (take len sb) ≡ err_ok
        → write_round env again pcb sb len t
          ≡ some ((err_ok, len), tcp_written pcb (take len sb) err_ok ∷ t)
    unfolding write_round
    round_ok e = ground (arith, c_str_bytes-part sb len t fits)

    round_refused :
        (n : ℕ)
        → env.tcp_write t pcb (take len sb) ≡ err_code n
        → write_round env again pcb sb len t
          ≡ some ((err_code n, len), tcp_written pcb (take len sb) (err_code n) ∷ t)
    unfolding write_round
    round_refused n e = ground (arith, c_str_bytes-part sb len t fits)

    round_mem :
        env.tcp_write t pcb (take len sb) ≡ err_mem
        → let t' = tcp_written pcb (take len sb) err_mem ∷ t in
          write_round env again pcb sb len t
          ≡ (if ltb 1 (less env pcb len t')
                then again (less env pcb len t')
                else pure (err_mem, less env pcb len t'))
              t'
    unfolding write_round
    round_mem e = ground (arith, c_str_bytes-part sb len t fits)

  -- What the loop returns: an error, with all bytes still waiting, or how many bytes went out.
  abbrev pub Written : (hd hu up : Bytes) → ℕ → Option ((LwipErr × ℕ) × Trace) → Type 0
  Written hd hu up len none = ⊥
  Written hd hu up len (some ((err_ok, n), t)) = (n ≤ len) × Flows hd hu (drop n sb) up t
  Written hd hu up len (some ((err_mem, n), t)) = Flows hd hu sb up t
  Written hd hu up len (some ((err_code k, n), t)) = Flows hd hu sb up t

  Written-mono :
      (hd hu up : Bytes) (m n : ℕ) (r : Option ((LwipErr × ℕ) × Trace))
      → m ≤ n
      → Written hd hu up m r
      → Written hd hu up n r
  Written-mono hd hu up m n none h w = w
  Written-mono hd hu up m n (some ((err_ok, k), t)) h w = (omega arith, w.1)
  Written-mono hd hu up m n (some ((err_mem, k), t)) h w = w
  Written-mono hd hu up m n (some ((err_code j, k), t)) h w = w

  -- With a positive length within the buffer and at least as much fuel, the loop ends without a
  -- fault. If `tcp_write` accepted the bytes of the last length, these are no more than the first
  -- length and the front of the buffer; after any error all bytes still wait.
  pub write_loop-Written :
      (hd hu up : Bytes) (fuel len : ℕ) (t : Trace)
      → 0 < len
      → len ≤ fuel
      → len ≤ length sb
      → Flows hd hu sb up t
      → Written hd hu up len (write_loop env fuel pcb sb len t)
  unfolding write_loop
  write_loop-Written hd hu up zero len t pos enough fits f = absurd (omega arith)
  write_loop-Written hd hu up (suc fuel) len t pos enough fits f =
      go (env.tcp_write t pcb (take len sb)) refl
        (λ len' t'. write_loop-Written hd hu up fuel len' t')
    where
      go :
          (r : LwipErr)
          → env.tcp_write t pcb (take len sb) ≡ r
          → ((len' : ℕ) (t' : Trace)
              → 0 < len'
              → len' ≤ fuel
              → len' ≤ length sb
              → Flows hd hu sb up t'
              → Written hd hu up len' (write_loop env fuel pcb sb len' t'))
          → Written hd hu up len (write_round env (write_loop env fuel pcb sb) pcb sb len t)
      go err_ok e ih =
          rw (round_ok (write_loop env fuel pcb sb) len t fits e)
            (omega arith, Flows-written f pcb len)
      go (err_code n) e ih =
          rw (round_refused (write_loop env fuel pcb sb) len t fits n e)
            (Flows-refused f pcb (take len sb) n)
      go err_mem e ih =
          let t' = tcp_written pcb (take len sb) err_mem ∷ t in
          let len' = less env pcb len t' in
          rw (round_mem (write_loop env fuel pcb sb) len t fits e) (elim (Bool-cases (ltb 1 len')) [
            | inl b ↦ rw b (
                let (lt, pos') = less-lt len t' b in
                Written-mono hd hu up len' len _ (omega arith) (
                  ih len' t' (omega arith) (omega arith) (omega arith)
                    (Flows-mem f pcb (take len sb))))
            | inr b ↦ rw b (Flows-mem f pcb (take len sb))
          ])
