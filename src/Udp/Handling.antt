-- ===== src/Udp/Handling.antt =====
-- What `udp_raw_recv` of src/udp_raw.cpp does with the payload and with descriptors on all its
-- paths: the rules, one for each way to build a command.
pub mod Calls
pub mod Queries
pub mod Paths
use ip2socks.Common.{
  ℕ, suc, ◌+◌, ◌≤◌, ◌≡◌, ◌∙◌, refl, Bool, true, false, Option, none, some, List, [], ◌∷◌, Bytes,
  arith, if◌then◌else◌,
}
use ip2socks.System.{Trace, Cmd, pbuf_freed, udp_replied, pure, ◌>>=◌, ◌>>◌, record_event}
use ip2socks.Tcp.Accepting.{closes}
use ip2socks.Udp.{Exchange, E, sys}
use ip2socks.Udp.Replies.{replies}
use ip2socks.Udp.Wire.{text}

-- How often a `pbuf` was freed.
abbrev pub frees : Trace → ℕ
frees [] = 0
frees (pbuf_freed ∷ t) = suc (frees t)
frees (e ∷ t) = frees t

-- Nothing was freed, closed or answered from one trace to the other.
pub record Untouched (t u : Trace) : Type 0 where
  pub no_free : frees u ≡ frees t
  pub no_close : closes u ≡ closes t
  pub no_reply : replies u ≡ replies t

-- A `pbuf` was freed at most once, and nothing was closed or answered.
pub record Spent (t u : Trace) : Type 0 where
  pub one_free : frees u ≤ frees t + 1
  pub no_close : closes u ≡ closes t
  pub no_reply : replies u ≡ replies t

abbrev pub EndsUntouched : {S A : Type 0} → (S → Trace) → Trace → Option (A × S) → Type 0
EndsUntouched trace_of t none = ⊥
EndsUntouched trace_of t (some (a, x)) = Untouched t (trace_of x)

abbrev pub EndsSpent : Trace → Option (Unit {0} × Exchange) → Type 0
EndsSpent t none = ⊥
EndsSpent t (some (a, x)) = Spent t x.trace

-- A call that ends and touches nothing.
pub record IsCalm {A : Type 0} (m : Cmd Trace A) : Type 0 where
  pub at : (t : Trace) → EndsUntouched (λ u. u) t (m t)

pub record IsTame {A : Type 0} (m : E A) : Type 0 where
  pub at : (x : Exchange) → EndsUntouched Exchange.trace x.trace (m x)

-- A command that ends and frees at most once.
pub record IsFinal (m : E (Unit {0})) : Type 0 where
  pub at : (x : Exchange) → EndsSpent x.trace (m x)

Spent-after : {t u v : Trace} → Untouched t u → Spent u v → Spent t v
Spent-after p q = record {
  one_free = omega (arith, p.no_free, q.one_free);
  no_close = q.no_close ∙ p.no_close;
  no_reply = q.no_reply ∙ p.no_reply;
}

Untouched-after : {t u v : Trace} → Untouched t u → Untouched u v → Untouched t v
Untouched-after p q = record {
  no_free = q.no_free ∙ p.no_free;
  no_close = q.no_close ∙ p.no_close;
  no_reply = q.no_reply ∙ p.no_reply;
}

pub IsTame-pure : {A : Type 0} (a : A) → IsTame {A = A} (pure a)
IsTame-pure a = record { at = λ x. record { no_free = refl; no_close = refl; no_reply = refl } }

pub IsTame-sys : {A : Type 0} (m : Cmd Trace A) → IsCalm m → IsTame (sys m)
IsTame-sys {A = A} m k = record { at = λ x. of_result x (m x.trace) (k.at x.trace) }
  where
    of_result :
        (x : Exchange) (r : Option (A × Trace))
        → EndsUntouched (λ u. u) x.trace r
        → EndsUntouched Exchange.trace x.trace
            (elim r [ none ↦ none | some (a, t) ↦ some (a, record x { trace = t }) ])
    of_result x none h = h
    of_result x (some (a, t)) h = h

pub IsTame-bind :
    {A B : Type 0} {m : E A} {f : A → E B} → IsTame m → ((a : A) → IsTame (f a)) → IsTame (m >>= f)
IsTame-bind {A = A} {B = B} {m = m} {f = f} km kf = record { at = λ x. go x.trace (m x) (km.at x) }
  where
    onwards :
        (t u : Trace) (r : Option (B × Exchange))
        → Untouched t u
        → EndsUntouched Exchange.trace u r
        → EndsUntouched Exchange.trace t r
    onwards t u none p h = h
    onwards t u (some (b, y)) p h = Untouched-after p h

    go :
        (t : Trace) (r : Option (A × Exchange))
        → EndsUntouched Exchange.trace t r
        → EndsUntouched Exchange.trace t (elim r [ none ↦ none | some (a, y) ↦ f a y ])
    go t none h = h
    go t (some (a, y)) h = onwards t y.trace (f a y) h ((kf a).at y)

pub IsTame-if :
    {A : Type 0} (b : Bool) {m n : E A} → IsTame m → IsTame n → IsTame (if b then m else n)
IsTame-if true km kn = km
IsTame-if false km kn = kn

-- A field of the configuration that is set.
pub IsTame-text : (s : Option Bytes) (b : Bytes) → s ≡ some b → IsTame (text s)
unfolding text
IsTame-text s b e = rw e (IsTame-pure b)

pub IsFinal-nothing : IsFinal (pure tt)
IsFinal-nothing = record {
  at = λ x. record { one_free = omega arith; no_close = refl; no_reply = refl };
}

pub IsFinal-free : IsFinal (sys (record_event pbuf_freed))
IsFinal-free = record {
  at = λ x. record { one_free = omega arith; no_close = refl; no_reply = refl };
}

pub IsFinal-tame : {m : E (Unit {0})} → IsTame m → IsFinal m
IsFinal-tame {m = m} k = record { at = λ x. go x.trace (m x) (k.at x) }
  where
    go :
        (t : Trace) (r : Option (Unit {0} × Exchange))
        → EndsUntouched Exchange.trace t r
        → EndsSpent t r
    go t none h = h
    go t (some (a, y)) h = record {
      one_free = omega (arith, h.no_free);
      no_close = h.no_close;
      no_reply = h.no_reply;
    }

pub IsFinal-bind :
    {A : Type 0} {m : E A} {f : A → E (Unit {0})}
    → IsTame m
    → ((a : A) → IsFinal (f a))
    → IsFinal (m >>= f)
IsFinal-bind {A = A} {m = m} {f = f} km kf = record { at = λ x. go x.trace (m x) (km.at x) }
  where
    onwards :
        (t u : Trace) (r : Option (Unit {0} × Exchange))
        → Untouched t u
        → EndsSpent u r
        → EndsSpent t r
    onwards t u none p h = h
    onwards t u (some (b, y)) p h = Spent-after p h

    go :
        (t : Trace) (r : Option (A × Exchange))
        → EndsUntouched Exchange.trace t r
        → EndsSpent t (elim r [ none ↦ none | some (a, y) ↦ f a y ])
    go t none h = h
    go t (some (a, y)) h = onwards t y.trace (f a y) h ((kf a).at y)

pub IsFinal-if :
    (b : Bool) {m n : E (Unit {0})} → IsFinal m → IsFinal n → IsFinal (if b then m else n)
IsFinal-if true km kn = km
IsFinal-if false km kn = kn
