-- ===== src/Tcp/Owning/Deliver.antt =====
-- The callbacks that libev makes on a connection of src/tcp_raw.cpp keep what it owns.
use ip2socks.Common.{
  ℕ, zero, suc, ◌<◌, ◌≡◌, ◌∙◌, refl, Bool, true, false, Option, none, some, List, [], ◌∷◌, Bytes,
  ltb, if◌then◌else◌,
}
use ip2socks.System
use ip2socks.System.{
  ◌>>=◌, ◌>>◌, Env, Pcb, LwipErr, err_ok, err_mem, err_code, Cmd, Trace, pure, tcp_write,
  tcp_output,
}
use ip2socks.Tcp.State.{World, W, Ev, sys, c_str_bytes}
use ip2socks.Tcp.Close.{timeout_stop, block_stop, free_all}
use ip2socks.Tcp.Downstream.{
  is_mem, less, write_round, write_loop, erase_front, flushed, send_waiting, send_data_lwip,
  write_and_output, timeout_cb, block_cb, relay_read, read_cb,
}
use ip2socks.Tcp.Events.{stop_block}
use ip2socks.Tcp.Owning.{
  KeepsOwns, Closeless, Neutral, Unclosed, KeepsOwns-sys, KeepsOwns-free_all, owning,
}

-- The loop of writes closes nothing.
Closeless-fault : {A : Type 0} → Closeless {A = A} System.fault
Closeless-fault = record { at = λ t. tt }

Unclosed-trans : {t u v : Trace} → Unclosed t u → Unclosed u v → Unclosed t v
Unclosed-trans p q = record { fds = q.fds ∙ p.fds; pcbs = q.pcbs ∙ p.pcbs }

Closeless-bind :
    {A B : Type 0} {m : Cmd Trace A} {f : A → Cmd Trace B}
    → Closeless m
    → ((a : A) → Closeless (f a))
    → Closeless (m >>= f)
Closeless-bind {A = A} {B = B} {m = m} {f = f} km kf = record { at = λ t. go t (m t) (km.at t) }
  where
    onwards : (t u : Trace) (r : Option (B × Trace)) → Unclosed t u → Neutral u r → Neutral t r
    onwards t u none p q = tt
    onwards t u (some (b, v)) p q = Unclosed-trans p q

    go :
        (t : Trace) (r : Option (A × Trace))
        → Neutral t r
        → Neutral t (elim r [ none ↦ none | some (a, u) ↦ f a u ])
    go t none h = tt
    go t (some (a, u)) h = onwards t u (f a u) h ((kf a).at u)

Closeless-if :
    {A : Type 0} (b : Bool) {m n : Cmd Trace A}
    → Closeless m
    → Closeless n
    → Closeless (if b then m else n)
Closeless-if true km kn = km
Closeless-if false km kn = kn

Closeless-pure : {A : Type 0} (a : A) → Closeless (pure a)
Closeless-pure a = record { at = λ t. record { fds = refl; pcbs = refl } }

Closeless-c_str : (s : Bytes) (n : ℕ) → Closeless (c_str_bytes s n)
unfolding c_str_bytes
Closeless-c_str s n = search (Closeless-if, Closeless-fault, Closeless-pure)

module _ (env : Env) where
  Closeless-write : (pcb : Pcb) (bs : Bytes) → Closeless (tcp_write env pcb bs)
  Closeless-write pcb bs = record { at = λ t. record { fds = refl; pcbs = refl } }

  again_or_stop :
      (again : ℕ → Cmd Trace (LwipErr × ℕ)) (pcb : Pcb) (len : ℕ) (err : LwipErr)
      → ((n : ℕ) → Closeless (again n))
      → Closeless (λ t.
        let len' = less env pcb len t in (if ltb 1 len' then again len' else pure (err, len')) t)
  again_or_stop again pcb len err k = record {
    at = λ t.
        let len' = less env pcb len t in
        (Closeless-if (ltb 1 len') (k len') (Closeless-pure (err, len'))).at t;
  }

  write_loop-Closeless :
      (fuel : ℕ) (pcb : Pcb) (bs : Bytes) (len : ℕ) → Closeless (write_loop env fuel pcb bs len)
  unfolding write_loop write_round
  write_loop-Closeless zero pcb bs len = Closeless-fault
  write_loop-Closeless (suc fuel) pcb bs len =
      let again = write_loop-Closeless fuel pcb bs in
      Closeless-bind (Closeless-c_str bs len) λ b. Closeless-bind (Closeless-write pcb b) λ err.
        Closeless-if (is_mem err) (again_or_stop (write_loop env fuel pcb bs) pcb len err again)
          (Closeless-pure (err, len))

module _ (pcb : Pcb) (fd : ℕ) (fds : List ℕ) (pcbs : List Pcb) where
  abbrev Keeps : {A : Type 0} → W A → Type 0
  Keeps m = KeepsOwns pcb fd fds pcbs m

  Keeps-peek : {A : Type 0} (f : World → A) → Keeps (λ w. some (f w, w))
  Keeps-peek f = record { at = λ w h. h }

  module _ (env : Env) where
    Keeps-loop :
        (fuel : ℕ) (p : Pcb) (bs : Bytes) (len : ℕ) → Keeps (sys (write_loop env fuel p bs len))
    Keeps-loop fuel p bs len =
        KeepsOwns-sys pcb fd fds pcbs (write_loop env fuel p bs len)
          (write_loop-Closeless env fuel p bs len)

    Keeps-output : (p : Pcb) → Keeps (sys (tcp_output env p))
    Keeps-output p =
        KeepsOwns-sys pcb fd fds pcbs (tcp_output env p)
          (record { at = λ t. record { fds = refl; pcbs = refl } })

    Keeps-recv : (d n : ℕ) → Keeps (sys (System.recv env d n))
    Keeps-recv d n =
        KeepsOwns-sys pcb fd fds pcbs (System.recv env d n)
          (record { at = λ t. record { fds = refl; pcbs = refl } })

    erase_front-Keeps : (bs : Bytes) (n : ℕ) → Keeps (erase_front env bs n)
    unfolding erase_front
    erase_front-Keeps bs n = search owning

    flushed-Keeps : (p : Pcb) (len : ℕ) → Keeps (flushed env p len)
    unfolding flushed
    flushed-Keeps p len = search (owning, erase_front-Keeps, Keeps-output) depth 16

    send_waiting-Keeps : (p : Pcb) → Keeps (send_waiting env p)
    unfolding send_waiting
    send_waiting-Keeps p = search (owning, Keeps-peek, Keeps-loop, flushed-Keeps) depth 16

    send_data_lwip-Keeps : (p : Option Pcb) → Keeps (send_data_lwip env p)
    unfolding send_data_lwip
    send_data_lwip-Keeps none = search owning
    send_data_lwip-Keeps (some p) = search (owning, Keeps-peek, send_waiting-Keeps) depth 16

    write_and_output-Keeps : (p : Option Pcb) → Keeps (write_and_output env p)
    unfolding write_and_output
    write_and_output-Keeps p = send_data_lwip-Keeps p

    module _ (ev : Ev) (pos : 0 < fd) where
      Keeps-free_all : (p : Option Pcb) → p ≡ some pcb → Keeps (free_all ev p)
      Keeps-free_all = KeepsOwns-free_all pcb fd fds pcbs ev pos

      pub timeout_cb-Keeps : Keeps (timeout_cb env ev)
      unfolding timeout_cb
      timeout_cb-Keeps = search (owning, write_and_output-Keeps, Keeps-free_all) depth 16

      Keeps-block_stop : Keeps (block_stop ev)
      Keeps-block_stop = record { at = λ w h. h }

      pub Keeps-timeout_stop : Keeps (timeout_stop ev)
      Keeps-timeout_stop = record { at = λ w h. h }

      pub Keeps-stop_block : Keeps (stop_block env ev pcb)
      Keeps-stop_block = record { at = λ w h. h }

      pub block_cb-Keeps : Keeps (block_cb env ev)
      unfolding block_cb
      block_cb-Keeps = search (owning, write_and_output-Keeps, Keeps-block_stop) depth 16

      relay_read-Keeps :
          (p : Option Pcb) (r : Option Bytes) → p ≡ some pcb → Keeps (relay_read env ev p r)
      unfolding relay_read
      relay_read-Keeps p none e = Keeps-free_all p e
      relay_read-Keeps p (some []) e =
          search (owning, write_and_output-Keeps, Keeps-free_all) depth 16
      relay_read-Keeps p (some (b ∷ bs)) e = search (owning, write_and_output-Keeps) depth 16

      pub read_cb-Keeps : Keeps (read_cb env ev)
      unfolding read_cb
      read_cb-Keeps = search (owning, relay_read-Keeps, Keeps-recv) depth 16
