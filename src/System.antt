-- ===== src/System.antt =====
-- What src/ calls and does not implement: the sockets of the C library and lwIP. Each call is
-- recorded in a trace, the newest first, and answered by an environment that sees the trace so far,
-- so that a statement for every environment is one for every behaviour of the peer, the kernel and
-- the stack.
pub mod Growing
use ip2socks.Common.{ℕ, zero, suc, [], Bool, Option, none, some, List, ◌∷◌, Bytes, take}

pub data SockOption : Type 0 where
  rcvtimeo sndtimeo reuseaddr : SockOption

pub data SockType : Type 0 where
  stream dgram : SockType

-- `struct in_addr`: four bytes in network order.
pub record Ip4 : Type 0 where
  pub a : ℕ
  pub b : ℕ
  pub c : ℕ
  pub d : ℕ

abbrev pub ip_bytes : Ip4 → Bytes
ip_bytes ip = ip.a ∷ ip.b ∷ ip.c ∷ ip.d ∷ []

-- `struct sockaddr_in`, with the port as a number.
pub record SockAddr : Type 0 where
  pub ip : Ip4
  pub port : ℕ

-- `err_t` of lwIP: `ERR_OK`, `ERR_MEM`, and the error -n.
pub data LwipErr : Type 0 where
  err_ok err_mem : LwipErr
  err_code : ℕ → LwipErr

-- A protocol control block of lwIP, as its address; `none` is NULL.
abbrev pub Pcb : Type 0
Pcb = ℕ

-- A call that returns -1 or a number has `none` or that number as its answer; `recv` has the bytes.
pub data Event : Type 0 where
  opened : SockType → Option ℕ → Event
  option_set : ℕ → SockOption → Bool → Event
  connected : ℕ → SockAddr → Bool → Event
  bound : ℕ → Bool → Event
  sent : ℕ → Bytes → Option ℕ → Event
  sent_to : ℕ → Bytes → SockAddr → Option ℕ → Event
  received : ℕ → Option Bytes → Event
  closed : ℕ → Event
  tcp_closed : Pcb → Event
  tcp_aborted : Pcb → Event
  tcp_acked : Pcb → ℕ → Event
  tcp_written : Pcb → Bytes → LwipErr → Event
  tcp_flushed : Pcb → LwipErr → Event
  pbuf_copied : Bytes → Event
  pbuf_freed : Event
  udp_replied : Pcb → Bytes → Ip4 → ℕ → Event

abbrev pub Trace : Type 0
Trace = List Event

pub record Env : Type 0 where
  pub socket : Trace → SockType → Option ℕ
  pub setsockopt : Trace → ℕ → SockOption → Bool
  pub connect : Trace → ℕ → SockAddr → Bool
  pub bind : Trace → ℕ → Bool
  pub send : Trace → ℕ → Bytes → Option ℕ
  pub sendto : Trace → ℕ → Bytes → SockAddr → Option ℕ
  pub recv : Trace → ℕ → Option Bytes
  pub tcp_write : Trace → Pcb → Bytes → LwipErr
  pub tcp_output : Trace → Pcb → LwipErr
  pub tcp_sndbuf : Trace → Pcb → ℕ
  pub tcp_sndqueuelen : Trace → Pcb → ℕ
  pub pcb_state : Trace → Pcb → ℕ
  pub pbuf_alloc : Trace → ℕ → Bool
  pub uninit : Trace → ℕ → ℕ  -- what memory holds before it is written, byte by byte
  pub inet_aton : Bytes → Option Ip4
  pub inet_addr : Bytes → Ip4
  pub inet_ntop : Ip4 → Bytes

-- A command on a state; `none` is undefined behaviour, such as a write past the end of a buffer.
abbrev pub Cmd : Type 0 → Type 0 → Type 0
Cmd S A = S → Option (A × S)

abbrev pub pure : {S A : Type 0} → A → Cmd S A
pure a s = some (a, s)

abbrev pub fault : {S A : Type 0} → Cmd S A
fault s = none

infixl 5 ◌>>=◌ ◌>>◌
abbrev pub ◌>>=◌ : {S A B : Type 0} → Cmd S A → (A → Cmd S B) → Cmd S B
◌>>=◌ m f s = elim (m s) [ none ↦ none | some (a, s') ↦ f a s' ]

abbrev pub ◌>>◌ : {S B : Type 0} → Cmd S (Unit {0}) → Cmd S B → Cmd S B
m >> k = m >>= λ _. k

-- `n` bytes of memory from place `i` on.
abbrev pub memory : (ℕ → ℕ) → ℕ → ℕ → Bytes
memory m zero i = []
memory m (suc n) i = m i ∷ memory m n (suc i)

unfoldable pub at_most : ℕ → Option Bytes → Option Bytes
at_most n none = none
at_most n (some bs) = some (take n bs)

-- The calls. `recv` returns at most the bytes that its buffer has room for.
module _ (env : Env) where
  abbrev pub socket : SockType → Cmd Trace (Option ℕ)
  socket k t = let r = env.socket t k in some (r, opened k r ∷ t)

  abbrev pub setsockopt : ℕ → SockOption → Cmd Trace Bool
  setsockopt fd o t = let r = env.setsockopt t fd o in some (r, option_set fd o r ∷ t)

  abbrev pub connect : ℕ → SockAddr → Cmd Trace Bool
  connect fd a t = let r = env.connect t fd a in some (r, connected fd a r ∷ t)

  abbrev pub bind : ℕ → Cmd Trace Bool
  bind fd t = let r = env.bind t fd in some (r, bound fd r ∷ t)

  abbrev pub send : ℕ → Bytes → Cmd Trace (Option ℕ)
  send fd bs t = let r = env.send t fd bs in some (r, sent fd bs r ∷ t)

  abbrev pub sendto : ℕ → Bytes → SockAddr → Cmd Trace (Option ℕ)
  sendto fd bs a t = let r = env.sendto t fd bs a in some (r, sent_to fd bs a r ∷ t)

  abbrev pub recv : ℕ → ℕ → Cmd Trace (Option Bytes)
  recv fd n t = let r = at_most n (env.recv t fd) in some (r, received fd r ∷ t)

  abbrev pub tcp_write : Pcb → Bytes → Cmd Trace LwipErr
  tcp_write pcb bs t = let r = env.tcp_write t pcb bs in some (r, tcp_written pcb bs r ∷ t)

  abbrev pub tcp_output : Pcb → Cmd Trace LwipErr
  tcp_output pcb t = let r = env.tcp_output t pcb in some (r, tcp_flushed pcb r ∷ t)

-- A call with no answer.
abbrev pub record_event : Event → Cmd Trace (Unit {0})
record_event e t = some (tt, e ∷ t)
