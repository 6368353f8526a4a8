-- ===== src/Tcp/Refining/Runs.antt =====
-- The callbacks of src/tcp_raw.cpp, seen from outside, do what the two pipes allow.
use ip2socks.Common.{
  ℕ, ◌<◌, ◌≤◌, ◌≡◌, ◌∙◌, refl, true, false, Option, none, some, List, [], ◌∷◌, ◌++◌, Bytes, length,
  All, arith,
}
use ip2socks.System.{Env, Pcb, Trace}
use ip2socks.System.Growing.{Extends, Later}
use ip2socks.Tcp.State.{TcpRawState, Watchers, Hooks, Ev, EvLaws, World}
use ip2socks.Tcp.Accept.{new_es}
use ip2socks.Tcp.Events.{Input, deliver, run}
use ip2socks.Tcp.Flows.{down_in, down_out, up_in, up_out}
use ip2socks.Tcp.Invariant.{Valid, IsValid, Ends}
use ip2socks.Tcp.Safety.{Fits, deliver-IsValid, deliver_gone, started, started-IsValid}
use ip2socks.Tcp.Growing.Deliver.{deliver-GrowsW}
use ip2socks.Tcp.Pipes.{Seen, Pipes, live_pipes, dead_pipes, settle, empty, still, serve, serve_all}
use ip2socks.Tcp.Refining.{seen, Holds, serve-seen}

-- What is seen of a run, callback by callback: of each one the events that it puts before the
-- trace, and whether the memory of the connection is freed behind it.
pub data Watched (env : Env) (ev : Ev) (pcb : Pcb)
    : List Input → World → List Seen → World → Type 0 where
  over : (w : World) → Watched env ev pcb [] w [] w
  called :
      (i : Input) (is : List Input) (w w1 w2 : World) (new : Trace) (ss : List Seen)
      → deliver env ev pcb i w ≡ some (tt, w1)
      → w1.trace ≡ new ++ w.trace
      → Watched env ev pcb is w1 ss w2
      → Watched env ev pcb (i ∷ is) w (seen new w1.es ∷ ss) w2

settle_live :
    (c : TcpRawState)
    → length c.socks_buf ≤ 3028
    → settle false c.socks_buf [] ≡ some (live_pipes c.socks_buf)
unfolding settle
settle_live c h = ground arith

settle_dead : (down up : Bytes) → settle true down up ≡ some (dead_pipes down up)
unfolding settle
settle_dead down up = refl

serve_dead : (p : Pipes) → p.alive ≡ false → serve p (seen [] none) ≡ some p
unfolding serve still empty
serve_dead p e = ground arith

module _ (hd hu : Bytes) (pcb : Pcb) where
  -- A callback that is allowed by the pipes `p`, and the pipes behind it.
  abbrev Served : Trace → Pipes → Option (Unit {0} × World) → Type 0
  Served t p r =
      (w1 : World) × (new : Trace) × (r ≡ some (tt, w1))
      × (w1.trace ≡ new ++ t)
      × IsValid hd hu pcb w1
      × ((q : Pipes) × (serve p (seen new w1.es) ≡ some q) × Holds w1.es q)

  live_served :
      (c : TcpRawState) (l : Watchers) (h : Hooks) (t : Trace)
      → Valid hd hu pcb (some c) l h t
      → (es' : Option TcpRawState) (l' : Watchers) (h' : Hooks) (u : Trace) → (later : Extends t u)
      → Valid hd hu pcb es' l' h' u
      → (q : Pipes) × (serve (live_pipes c.socks_buf) (seen later.new es') ≡ some q) × Holds es' q
  live_served c l h t (o, e, f) none l' h' u later (g, (down, up, f')) =
      (dead_pipes down up, serve-seen f later f' none ∙ settle_dead down up, refl)
  live_served c l h t (o, e, f) (some c') l' h' u later (o', e', f') = (
    live_pipes c'.socks_buf,
    serve-seen f later f' (some c') ∙ settle_live c' o'.socks_bound,
    refl,
  )

  result-Served :
      (c : TcpRawState) (l : Watchers) (h : Hooks) (t : Trace)
      → Valid hd hu pcb (some c) l h t
      → (r : Option (Unit {0} × World)) → Later World.trace t r
      → Ends (IsValid hd hu pcb) r
      → Served t (live_pipes c.socks_buf) r
  result-Served c l h t v none later e = absurd e
  result-Served c l h t v (some (tt', w1)) later v1 = (
    w1,
    later.new,
    refl,
    later.parts,
    v1,
    live_served c l h t v w1.es w1.loop w1.hooks w1.trace later v1,
  )

  module _ (env : Env) {ev : Ev} (laws : EvLaws ev) where
    deliver-Served :
        (i : Input) (es : Option TcpRawState) (l : Watchers) (h : Hooks) (t : Trace) (p : Pipes)
        → Fits i
        → Valid hd hu pcb es l h t
        → Holds es p
        → Served t p (deliver env ev pcb i (record { es = es; loop = l; hooks = h; trace = t }))
    deliver-Served i (some c) l h t p fits v held =
        let w : World = record { es = some c; loop = l; hooks = h; trace = t } in
        rw held (
          result-Served c l h t v (deliver env ev pcb i w) ((deliver-GrowsW env ev pcb i).at w)
            (deliver-IsValid env laws hd hu pcb i w fits v))
    deliver-Served i none l h t p fits v dead =
        let w : World = record { es = none; loop = l; hooks = h; trace = t } in
        (w, [], deliver_gone env laws hd hu pcb i w v.0, refl, v, (p, serve_dead p dead, dead))

    -- A whole run, with what is seen of it.
    abbrev Refined : List Input → World → Pipes → Type 0
    Refined is w p =
        (w' : World) × (ss : List Seen) × (q : Pipes) × (run env ev pcb is w ≡ some (tt, w'))
        × Watched env ev pcb is w ss w'
        × (serve_all ss p ≡ some q)
        × Holds w'.es q

    run_next :
        (i : Input) (is : List Input) (w w1 : World)
        → deliver env ev pcb i w ≡ some (tt, w1)
        → run env ev pcb (i ∷ is) w ≡ run env ev pcb is w1
    unfolding run
    run_next i is w w1 e = rw (e, run) refl

    serve_next :
        (s : Seen) (ss : List Seen) (p q : Pipes)
        → serve p s ≡ some q
        → serve_all (s ∷ ss) p ≡ serve_all ss q
    unfolding serve_all
    serve_next s ss p q e = rw (e, serve_all) refl

    run-Refined :
        (is : List Input) (w : World) (p : Pipes)
        → All Fits is
        → IsValid hd hu pcb w
        → Holds w.es p
        → Refined is w p
    unfolding run serve_all
    run-Refined [] w p fits v held = (w, [], p, refl, over w, refl, held)
    run-Refined (i ∷ is) w p fits v held =
        let (w1, new, e, grown, v1, (q, s, held1)) =
          deliver-Served i w.es w.loop w.hooks w.trace p fits.0 v held in
        let (w2, ss, q2, ran, watched, served, held2) = run-Refined is w1 q fits.1 v1 held1 in
        (
          w2,
          seen new w1.es ∷ ss,
          q2,
          run_next i is w w1 e ∙ ran,
          called i is w w1 w2 new ss e grown watched,
          serve_next (seen new w1.es) ss p q s ∙ served,
          held2,
        )

module _ (env : Env) {ev : Ev} (laws : EvLaws ev) (pcb : Pcb) (fd : ℕ) (pos : 0 < fd) where
  -- From the state in which `tcp_raw_accept` leaves a connection, with a trace that has moved no
  -- byte of it, every sequence of callbacks whose payloads are shorter than 2 ^ 16 bytes ends
  -- without a fault, and what is seen of it, callback by callback, is allowed by the abstract
  -- machine of two empty pipes: what a callback gives to `tcp_write`, which accepts it, is at the
  -- front of what waits downwards and what it reads, and likewise upwards for what it copies from
  -- the stack and gives to a `send` that takes some of it; while the connection lives, at most 3028
  -- bytes wait downwards behind a callback and none upwards; and once its memory is freed, nothing
  -- is moved. At the end the pipes hold the `socks_buf` of a connection that is live, and are dead
  -- if it is not.
  pub run_refines :
      (is : List Input) (w : World)
      → All Fits is
      → up_in w.trace ≡ []
      → down_out w.trace ≡ []
      → let w0 = started env laws pcb fd pos w in
        (w' : World) × (ss : List Seen) × (q : Pipes) × (run env ev pcb is w0 ≡ some (tt, w'))
        × Watched env ev pcb is w0 ss w'
        × (serve_all ss (live_pipes []) ≡ some q)
        × Holds w'.es q
  unfolding new_es
  run_refines is w fits no_up no_down =
      run-Refined (down_in w.trace) (up_out w.trace) pcb env laws is (started env laws pcb fd pos w)
        (live_pipes []) fits (started-IsValid env laws pcb fd pos w no_up no_down) refl
