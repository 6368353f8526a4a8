-- ===== src/System/Growing.antt =====
-- Commands never take a recorded call back: one rule for each way to build a command.
use ip2socks.Common.{
  ◌≡◌, refl, sym, ap, ◌∙◌, Bool, true, false, Option, none, some, ◌++◌, [], ◌∷◌, append_assoc,
  if◌then◌else◌,
}
use ip2socks.System.{Trace, Event, Cmd, pure, fault, ◌>>=◌}

-- `new` are the events of `u` that come after `t`.
pub record Extends (t u : Trace) : Type 0 where
  pub new : Trace
  pub parts : u ≡ new ++ t

pub Extends-same : (t : Trace) → Extends t t
Extends-same t = record { new = []; parts = refl }

pub Extends-one : (e : Event) (t : Trace) → Extends t (e ∷ t)
Extends-one e t = record { new = e ∷ []; parts = refl }

pub Extends-trans : {t u v : Trace} → Extends t u → Extends u v → Extends t v
Extends-trans {t = t} p q = record {
  new = q.new ++ p.new;
  parts = q.parts ∙ ap (λ x. q.new ++ x) p.parts ∙ sym (append_assoc q.new p.new t);
}

-- If the command ends, its trace extends `t`.
abbrev pub Later : {S A : Type 0} → (S → Trace) → Trace → Option (A × S) → Type 0
Later trace_of t none = Unit {0}
Later trace_of t (some (a, s)) = Extends t (trace_of s)

-- The trace of the state only grows.
pub record Grows {S A : Type 0} (trace_of : S → Trace) (m : Cmd S A) : Type 0 where
  pub at : (s : S) → Later trace_of (trace_of s) (m s)

module _ {S A : Type 0} {trace_of : S → Trace} where
  pub Grows-pure : (a : A) → Grows {A = A} trace_of (pure a)
  Grows-pure a = record { at = λ s. Extends-same (trace_of s) }

  pub Grows-fault : Grows {A = A} trace_of fault
  Grows-fault = record { at = λ s. tt }

  pub Grows-if :
      (b : Bool) {m n : Cmd S A}
      → Grows trace_of m
      → Grows trace_of n
      → Grows trace_of (if b then m else n)
  Grows-if true km kn = km
  Grows-if false km kn = kn

module _ {S A B : Type 0} {trace_of : S → Trace} where
  later_bind :
      (f : A → Cmd S B) (t : Trace) (r : Option (A × S))
      → Later trace_of t r
      → ((a : A) → Grows trace_of (f a))
      → Later trace_of t (elim r [ none ↦ none | some (a, s) ↦ f a s ])
  later_bind f t none h k = tt
  later_bind f t (some (a, s)) h k = later_trans (f a s) h ((k a).at s)
    where
      later_trans :
          {u : Trace} (r : Option (B × S)) → Extends t u → Later trace_of u r → Later trace_of t r
      later_trans none p q = tt
      later_trans (some (b, s')) p q = Extends-trans p q

  pub Grows-bind :
      {m : Cmd S A} {f : A → Cmd S B}
      → Grows trace_of m
      → ((a : A) → Grows trace_of (f a))
      → Grows trace_of (m >>= f)
  Grows-bind {m = m} {f = f} km kf = record {
    at = λ s. later_bind f (trace_of s) (m s) (km.at s) kf;
  }
