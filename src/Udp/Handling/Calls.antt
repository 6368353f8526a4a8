-- ===== src/Udp/Handling/Calls.antt =====
-- The calls of the system by `udp_raw_recv` of src/udp_raw.cpp, which free and close nothing.
use ip2socks.Common.{ℕ, refl, Option, none, some, Bytes, arith}
use ip2socks.System
use ip2socks.System.{Env, Trace, Ip4, SockAddr, SockType, Pcb, pure, fault, ◌>>=◌, ◌>>◌}
use ip2socks.Socks5.{
  socks5_sockset, socks5_connect, socks5_auth, send_request, await_reply, aton_fresh,
}
use ip2socks.Udp.{E, sys}
use ip2socks.Udp.Handling.{
  IsCalm, IsTame, IsFinal, IsTame-pure, IsTame-sys, IsTame-bind, IsTame-if, IsTame-text,
  IsFinal-nothing, IsFinal-free, IsFinal-tame, IsFinal-bind, IsFinal-if,
}

-- A value that may be missing.
pub IsTame-option :
    {A B : Type 0} (o : Option A) {m : E B} {f : A → E B}
    → IsTame m
    → ((a : A) → IsTame (f a))
    → IsTame (elim o as (λ _. E B) [ none ↦ m | some a ↦ f a ])
IsTame-option none km kf = km
IsTame-option (some a) km kf = kf a

pub IsFinal-option :
    {A : Type 0} (o : Option A) {m : E (Unit {0})} {f : A → E (Unit {0})}
    → IsFinal m
    → ((a : A) → IsFinal (f a))
    → IsFinal (elim o as (λ _. E (Unit {0})) [ none ↦ m | some a ↦ f a ])
IsFinal-option none km kf = km
IsFinal-option (some a) km kf = kf a

pub ruleset handling = (
  IsTame-pure, IsTame-bind, IsTame-if, IsTame-text, IsTame-option, IsFinal-nothing, IsFinal-free,
  IsFinal-bind, IsFinal-if, IsFinal-option,
)

module _ (env : Env) where
  pub IsTame-socket : (k : SockType) → IsTame (sys (System.socket env k))
  IsTame-socket k =
      IsTame-sys (System.socket env k)
        (record { at = λ t. record { no_free = refl; no_close = refl; no_reply = refl } })

  pub IsTame-bound : (fd : ℕ) → IsTame (sys (System.bind env fd))
  IsTame-bound fd =
      IsTame-sys (System.bind env fd)
        (record { at = λ t. record { no_free = refl; no_close = refl; no_reply = refl } })

  pub IsTame-sendto :
      (fd : ℕ) (bs : Bytes) (a : SockAddr) → IsTame (sys (System.sendto env fd bs a))
  IsTame-sendto fd bs a =
      IsTame-sys (System.sendto env fd bs a)
        (record { at = λ t. record { no_free = refl; no_close = refl; no_reply = refl } })

  pub IsTame-send : (fd : ℕ) (bs : Bytes) → IsTame (sys (System.send env fd bs))
  IsTame-send fd bs =
      IsTame-sys (System.send env fd bs)
        (record { at = λ t. record { no_free = refl; no_close = refl; no_reply = refl } })

  pub IsTame-recv : (fd n : ℕ) → IsTame (sys (System.recv env fd n))
  IsTame-recv fd n =
      IsTame-sys (System.recv env fd n)
        (record { at = λ t. record { no_free = refl; no_close = refl; no_reply = refl } })

  pub IsTame-aton : (host : Bytes) → IsTame (sys (aton_fresh env host))
  unfolding aton_fresh
  IsTame-aton host =
      IsTame-sys (aton_fresh env host)
        (record { at = λ t. record { no_free = refl; no_close = refl; no_reply = refl } })

  connect-IsCalm : (host port : Bytes) → IsCalm (socks5_connect env host port)
  unfolding socks5_connect socks5_sockset
  connect-IsCalm host port = record { at = λ t. ground arith }

  auth-IsCalm : (fd : ℕ) (host port : Bytes) (cmd : ℕ) → IsCalm (socks5_auth env fd host port cmd 1)
  unfolding socks5_auth send_request await_reply aton_fresh
  auth-IsCalm fd host port cmd = record { at = λ t. ground arith }

  pub IsTame-connect : (host port : Bytes) → IsTame (sys (socks5_connect env host port))
  IsTame-connect host port = IsTame-sys _ (connect-IsCalm host port)

  pub IsTame-auth :
      (fd : ℕ) (host port : Bytes) (cmd : ℕ) → IsTame (sys (socks5_auth env fd host port cmd 1))
  IsTame-auth fd host port cmd = IsTame-sys _ (auth-IsCalm fd host port cmd)
