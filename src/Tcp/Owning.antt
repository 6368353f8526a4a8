-- ===== src/Tcp/Owning.antt =====
-- What src/tcp_raw.cpp owns for a connection, the SOCKS5 socket and the pcb, and the rules by which
-- a command closes both once it frees the connection, and neither before.
pub mod Handlers
pub mod Deliver
pub mod Runs
use ip2socks.Common.{
  ℕ, ◌<◌, ◌≡◌, ◌∙◌, refl, Bool, true, false, Option, none, some, List, [], ◌∷◌, Bytes, arith, ltb,
  if◌then◌else◌,
}
use ip2socks.System.{Trace, Event, Pcb, Cmd, closed, tcp_closed, pure, fault, ◌>>=◌, record_event}
use ip2socks.Tcp.State.{
  TcpRawState, Watchers, Hooks, Ev, World, W, sys, load, store, watchers, set_watchers, set_hooks,
  conn, c_str_bytes,
}
use ip2socks.Tcp.Close.{tcp_raw_close, free_all, detach, close_es, stop_watchers}
use ip2socks.Tcp.Closing.{world, tcp_raw_close_lem}
use ip2socks.Tcp.Accepting.{closes}

-- The pcbs that `tcp_close` was given, the last one first.
abbrev pub pcb_closes : Trace → List Pcb
pcb_closes [] = []
pcb_closes (tcp_closed pcb ∷ t) = pcb ∷ pcb_closes t
pcb_closes (e ∷ t) = pcb_closes t

-- Nothing was closed from one trace to the other.
pub record Unclosed (t u : Trace) : Type 0 where
  pub fds : closes u ≡ closes t
  pub pcbs : pcb_closes u ≡ pcb_closes t

abbrev pub Neutral : {A : Type 0} → Trace → Option (A × Trace) → Type 0
Neutral t none = Unit {0}
Neutral t (some (a, u)) = Unclosed t u

-- A call that closes nothing.
pub record Closeless {A : Type 0} (m : Cmd Trace A) : Type 0 where
  pub at : (t : Trace) → Neutral t (m t)

module _ (pcb : Pcb) (fd : ℕ) (fds : List ℕ) (pcbs : List Pcb) where
  abbrev pub Mine : TcpRawState → Type 0
  Mine c = (c.socks_fd ≡ fd) × (c.pcb ≡ some pcb)

  -- While the connection is live, nothing of it was closed; afterwards its descriptor was, just
  -- once, and its pcb, twice.
  abbrev pub Holding : Option TcpRawState → Trace → Type 0
  Holding (some c) t = Mine c × (closes t ≡ fds) × (pcb_closes t ≡ pcbs)
  Holding none t = (closes t ≡ fd ∷ fds) × (pcb_closes t ≡ pcb ∷ pcb ∷ pcbs)

  abbrev pub Owns : World → Type 0
  Owns w = (w.loop.io_fd ≡ fd) × Holding w.es w.trace

  abbrev pub Owned : {A : Type 0} → Option (A × World) → Type 0
  Owned none = Unit {0}
  Owned (some (a, w)) = Owns w

  pub record KeepsOwns {A : Type 0} (m : W A) : Type 0 where
    pub at : (w : World) → Owns w → Owned (m w)

  pub KeepsOwns-pure : {A : Type 0} (a : A) → KeepsOwns {A = A} (pure a)
  KeepsOwns-pure a = record { at = λ w h. h }

  pub KeepsOwns-fault : {A : Type 0} → KeepsOwns {A = A} fault
  KeepsOwns-fault = record { at = λ w h. tt }

  pub KeepsOwns-if :
      {A : Type 0} (b : Bool) {m n : W A}
      → KeepsOwns m
      → KeepsOwns n
      → KeepsOwns (if b then m else n)
  KeepsOwns-if true km kn = km
  KeepsOwns-if false km kn = kn

  pub KeepsOwns-bind :
      {A B : Type 0} {m : W A} {f : A → W B}
      → KeepsOwns m
      → ((a : A) → KeepsOwns (f a))
      → KeepsOwns (m >>= f)
  KeepsOwns-bind {A = A} {B = B} {m = m} {f = f} km kf = record { at = λ w h. go (m w) (km.at w h) }
    where
      go : (r : Option (A × World)) → Owned r → Owned (elim r [ none ↦ none | some (a, w) ↦ f a w ])
      go none h = tt
      go (some (a, w)) h = (kf a).at w h

  -- What is loaded is the connection's own.
  pub KeepsOwns-load :
      {B : Type 0} {f : TcpRawState → W B}
      → ((c : TcpRawState) → c.socks_fd ≡ fd → c.pcb ≡ some pcb → KeepsOwns (f c))
      → KeepsOwns (load >>= f)
  KeepsOwns-load {B = B} {f = f} kf = record { at = λ w. by_es w.es w.loop w.hooks w.trace }
    where
      by_es :
          (es : Option TcpRawState) (l : Watchers) (h : Hooks) (t : Trace)
          → (l.io_fd ≡ fd) × Holding es t
          → Owned ((load >>= f) (record { es = es; loop = l; hooks = h; trace = t }))
      by_es none l h t o = tt
      by_es (some c) l h t o = (kf c o.1.0.0 o.1.0.1).at (world c l h t) o

  pub KeepsOwns-store : (c : TcpRawState) → c.socks_fd ≡ fd → c.pcb ≡ some pcb → KeepsOwns (store c)
  KeepsOwns-store c is_fd is_pcb = record { at = λ w. by_es w.es w.loop w.hooks w.trace }
    where
      by_es :
          (es : Option TcpRawState) (l : Watchers) (h : Hooks) (t : Trace)
          → (l.io_fd ≡ fd) × Holding es t
          → Owned (store c (record { es = es; loop = l; hooks = h; trace = t }))
      by_es none l h t o = tt
      by_es (some d) l h t o = (o.0, ((is_fd, is_pcb), o.1.1, o.1.2))

  pub KeepsOwns-watchers :
      {B : Type 0} {f : Watchers → W B}
      → ((l : Watchers) → l.io_fd ≡ fd → KeepsOwns (f l))
      → KeepsOwns (watchers >>= f)
  KeepsOwns-watchers kf = record { at = λ w h. (kf w.loop h.0).at w h }

  pub KeepsOwns-set_watchers : (l : Watchers) → l.io_fd ≡ fd → KeepsOwns (set_watchers l)
  KeepsOwns-set_watchers l e = record { at = λ w h. (e, h.1) }

  pub KeepsOwns-set_hooks : (h : Hooks) → KeepsOwns (set_hooks h)
  KeepsOwns-set_hooks h = record { at = λ w o. o }

  Unclosed-Holding :
      (es : Option TcpRawState) {t u : Trace} → Unclosed t u → Holding es t → Holding es u
  Unclosed-Holding none n h = (n.fds ∙ h.0, n.pcbs ∙ h.1)
  Unclosed-Holding (some c) n h = (h.0, n.fds ∙ h.1, n.pcbs ∙ h.2)

  pub KeepsOwns-sys : {A : Type 0} (m : Cmd Trace A) → Closeless m → KeepsOwns (sys m)
  KeepsOwns-sys {A = A} m k = record { at = λ w h. of_result w h (m w.trace) (k.at w.trace) }
    where
      of_result :
          (w : World)
          → Owns w
          → (r : Option (A × Trace)) → Neutral w.trace r
          → Owned (elim r [ none ↦ none | some (a, t) ↦ some (a, record w { trace = t }) ])
      of_result w h none n = tt
      of_result w h (some (a, t)) n = (h.0, Unclosed-Holding w.es n h.1)

  module _ (ev : Ev) (pos : 0 < fd) where
    -- The two ways in which a connection is closed.
    pub KeepsOwns-close : KeepsOwns (tcp_raw_close ev (some pcb) conn)
    unfolding tcp_raw_close close_es stop_watchers detach
    KeepsOwns-close = record { at = λ w. by_es w.es w.loop w.hooks w.trace }
      where
        by_es :
            (es : Option TcpRawState) (l : Watchers) (h : Hooks) (t : Trace)
            → (l.io_fd ≡ fd) × Holding es t
            → Owned (
                tcp_raw_close ev
                  (some pcb)
                  conn
                  (record { es = es; loop = l; hooks = h; trace = t }))
        by_es none l h t o = tt
        by_es (some c) l h t o =
            rw (tcp_raw_close_lem ev pcb c l h t o.1.0.1, o.1.0.0)
              (o.0, ground (arith, o.1.1, o.1.2))

    pub KeepsOwns-free_all : (p : Option Pcb) → p ≡ some pcb → KeepsOwns (free_all ev p)
    unfolding free_all
    KeepsOwns-free_all p e = rw e (record { at = λ w. by_es w.es w.loop w.hooks w.trace })
      where
        by_es :
            (es : Option TcpRawState) (l : Watchers) (h : Hooks) (t : Trace)
            → (l.io_fd ≡ fd) × Holding es t
            → Owned (free_all ev (some pcb) (record { es = es; loop = l; hooks = h; trace = t }))
        by_es none l h t o = tt
        by_es (some c) l h t o =
            rw
              (tcp_raw_close_lem ev pcb (record c { socks_fd = 0 })
                (record l { io = ev.io_stop l.io }) h (closed l.io_fd ∷ t) o.1.0.1)
              (o.0, ground (arith, o.0, o.1.1, o.1.2))

  pub KeepsOwns-record :
      (e : Event) → ((t : Trace) → Unclosed t (e ∷ t)) → KeepsOwns (sys (record_event e))
  KeepsOwns-record e k = KeepsOwns-sys (record_event e) (record { at = k })

pub ruleset owning = (
  KeepsOwns-pure, KeepsOwns-fault, KeepsOwns-if, KeepsOwns-bind, KeepsOwns-load, KeepsOwns-store,
  KeepsOwns-watchers, KeepsOwns-set_watchers, KeepsOwns-set_hooks,
)
