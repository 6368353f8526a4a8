-- ===== src/Tcp/Refining.antt =====
-- What is seen of a connection of src/tcp_raw.cpp while its trace grows, and the two pipes.
pub mod Runs
use ip2socks.Common.{
  ℕ, ◌<◌, ◌≡◌, sym, ap, ◌∙◌, refl, Bool, true, false, not, Option, none, some, List, [], ◌∷◌, ◌++◌,
  append_assoc, append-nil, append_cancel, arith, Bytes, All,
}
use ip2socks.System.{Env, Pcb, Trace, Event}
use ip2socks.System.Growing.{Extends, Later}
use ip2socks.Tcp.State.{TcpRawState, Watchers, Hooks, Ev, EvLaws, World}
use ip2socks.Tcp.Accept.{new_es}
use ip2socks.Tcp.Events.{Input, deliver, run}
use ip2socks.Tcp.Flows.{Flows, down_in, down_out, up_in, up_out}
use ip2socks.Tcp.Invariant.{Valid, IsValid, Ends}
use ip2socks.Tcp.Safety.{Fits, deliver-IsValid, deliver_gone, started, started-IsValid}
use ip2socks.Tcp.Growing.Deliver.{deliver-GrowsW}
use ip2socks.Tcp.Pipes.{Seen, Pipes, live_pipes, without, without-append, flow, settle, serve}

-- What a function reads off a trace event by event.
record IsReading (f : Trace → Bytes) : Type 0 where
  at_start : f [] ≡ []
  at_event : (e : Event) (t : Trace) → f (e ∷ t) ≡ f t ++ f (e ∷ [])

reading_append : {f : Trace → Bytes} → IsReading f → (es t : Trace) → f (es ++ t) ≡ f t ++ f es
reading_append {f = f} r [] t = sym (append-nil (f t)) ∙ ap (λ x. f t ++ x) (sym r.at_start)
reading_append {f = f} r (e ∷ es) t =
    r.at_event e (es ++ t)
    ∙ ap (λ x. x ++ f (e ∷ [])) (reading_append r es t)
    ∙ append_assoc (f t) (f es) (f (e ∷ []))
    ∙ ap (λ x. f t ++ x) (sym (r.at_event e es))

down_in-IsReading : IsReading down_in
down_in-IsReading = record {
  at_start = refl;
  at_event = λ e t. ground (arith, append-nil (down_in t));
}

down_out-IsReading : IsReading down_out
down_out-IsReading = record {
  at_start = refl;
  at_event = λ e t. ground (arith, append-nil (down_out t));
}

up_in-IsReading : IsReading up_in
up_in-IsReading = record { at_start = refl; at_event = λ e t. ground (arith, append-nil (up_in t)) }

up_out-IsReading : IsReading up_out
up_out-IsReading = record {
  at_start = refl;
  at_event = λ e t. ground (arith, append-nil (up_out t));
}

abbrev pub is_alive : Option TcpRawState → Bool
is_alive none = false
is_alive (some c) = true

-- One direction between two traces: what waits behind the prefix `h` and what was given, before and
-- after `x` was taken and `y` given.
flowed :
    (h done rest x y done' rest' : Bytes)
    → (h ++ (done ++ rest)) ++ x ≡ h ++ (done' ++ rest')
    → done' ≡ done ++ y
    → flow rest x y ≡ some rest'
flowed h done rest x y done' rest' e g =
    let middle : rest ++ x ≡ y ++ rest' = append_cancel done (
      append_cancel h (
        ap (λ z. h ++ z) (sym (append_assoc done rest x))
        ∙ sym (append_assoc h (done ++ rest) x)
        ∙ e
        ∙ ap (λ z. h ++ (z ++ rest')) g
        ∙ ap (λ z. h ++ z) (append_assoc done y rest'))) in
    ap (without y) middle ∙ without-append y rest'

-- What is seen of a connection by the events that are new in its trace.
abbrev pub seen : Trace → Option TcpRawState → Seen
seen new es = record {
  down_taken = down_in new;
  down_given = down_out new;
  up_taken = up_in new;
  up_given = up_out new;
  ended = not (is_alive es);
}

-- The pipes hold what waits in the memory of a live connection.
abbrev pub Holds : Option TcpRawState → Pipes → Type 0
Holds none p = p.alive ≡ false
Holds (some c) p = p ≡ live_pipes c.socks_buf

-- From a live connection to a later trace with exact flows.
module _ {hd hu waiting down up : Bytes} {t u : Trace} (f : Flows hd hu waiting [] t)
    (later : Extends t u) (f' : Flows hd hu down up u) where
  read_later : {g : Trace → Bytes} → IsReading g → g u ≡ g t ++ g later.new
  read_later {g = g} r = ap g later.parts ∙ reading_append r later.new t

  down-flow : flow waiting (down_in later.new) (down_out later.new) ≡ some down
  down-flow =
      flowed hd (down_out t) waiting (down_in later.new) (down_out later.new) (down_out u) down
        (ap (λ z. z ++ down_in later.new) (sym f.down_exact)
          ∙ sym (read_later down_in-IsReading)
          ∙ f'.down_exact)
        (read_later down_out-IsReading)

  up-flow : flow [] (up_in later.new) (up_out later.new) ≡ some up
  up-flow =
      flowed [] (up_out t) [] (up_in later.new) (up_out later.new) (up_out u) up
        (ap (λ z. z ++ up_in later.new) (sym f.up_exact)
          ∙ append_assoc hu (up_in t) (up_in later.new)
          ∙ ap (λ z. hu ++ z) (sym (read_later up_in-IsReading))
          ∙ f'.up_exact)
        (read_later up_out-IsReading)

  pub serve-seen :
      (es' : Option TcpRawState)
      → serve (live_pipes waiting) (seen later.new es') ≡ settle (not (is_alive es')) down up
  unfolding serve
  serve-seen es' = rw (down-flow, up-flow) refl
