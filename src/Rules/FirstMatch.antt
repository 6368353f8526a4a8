-- ===== src/Rules/FirstMatch.antt =====
-- What the rules of src/util.cpp mean: the first one that applies to a domain decides.
use ip2socks.Common.{
  ◌≡◌, ◌↔◌, inl, inr, refl, Bool, true, false, List, [], ◌∷◌, ◌++◌, map, arith, Bytes, codes,
  bytes_eq, bytes_eq_iff, Bool-cases,
}
use mathlib.Core.Path.{subst}
use ip2socks.Util.{Result, ok, end_with, has_substring}
use ip2socks.Util.Substrings.{end_with_iff, has_substring_iff}
use ip2socks.Rules.{forward_if, block_rule, Verdict, try_rule, match_dns_rule}

pub data Kind : Type 0 where
  exact keyword suffix : Kind

-- A rule as a configuration file can state it.
pub data Rule : Type 0 where
  server : (pattern' dns : Bytes) → Rule
  forward : Kind → (pattern' dns : Bytes) → Rule
  block : Kind → (pattern' : Bytes) → Rule

abbrev forward_name : Kind → Bytes
forward_name exact = codes "domain="
forward_name keyword = codes "domain_keyword="
forward_name suffix = codes "domain_suffix="

abbrev block_name : Kind → Bytes
block_name exact = codes "domain"
block_name keyword = codes "domain_keyword"
block_name suffix = codes "domain_suffix"

-- The row of texts that stands for the rule.
abbrev pub row : Rule → List Bytes
row (server p dns) = codes "server=" ∷ p ∷ dns ∷ []
row (forward k p dns) = forward_name k ∷ p ∷ dns ∷ []
row (block k p) = codes "block=" ∷ p ∷ block_name k ∷ []

abbrev pub Matches : Kind → Bytes → Bytes → Type 0
Matches exact p domain = domain ≡ p
Matches keyword p domain = (before : Bytes) × (after : Bytes) × (domain ≡ before ++ (p ++ after))
Matches suffix p domain = (before : Bytes) × (domain ≡ before ++ p)

abbrev pub Applies : Rule → Bytes → Type 0
Applies (server p dns) domain = Matches exact p domain
Applies (forward k p dns) domain = Matches k p domain
Applies (block k p) domain = Matches k p domain

abbrev pub outcome : Rule → Verdict → Verdict
outcome (server p dns) v = record v { matched = true; dns_server = dns }
outcome (forward k p dns) v = record v { matched = true; dns_server = dns }
outcome (block k p) v = record v { blocked = true }

pub data FirstMatch (domain : Bytes) (v : Verdict) : List Rule → Verdict → Type 0 where
  unmatched : FirstMatch domain v [] v
  here : {r : Rule} {rs : List Rule} → Applies r domain → FirstMatch domain v (r ∷ rs) (outcome r v)
  later :
      {r : Rule} {rs : List Rule} {w : Verdict}
      → ¬ Applies r domain
      → FirstMatch domain v rs w
      → FirstMatch domain v (r ∷ rs) w

test : Kind → Bytes → Bytes → Bool
test exact p domain = bytes_eq domain p
test keyword p domain = has_substring domain p
test suffix p domain = end_with domain p

test_iff : (k : Kind) (p domain : Bytes) → (test k p domain ≡ true) ↔ Matches k p domain
unfolding test
test_iff exact p domain = bytes_eq_iff domain p
test_iff keyword p domain = has_substring_iff domain p
test_iff suffix p domain = end_with_iff domain p

applies : Rule → Bytes → Bool
unfolding test
applies (server p dns) domain = test exact p domain
applies (forward k p dns) domain = test k p domain
applies (block k p) domain = test k p domain

applies_iff : (r : Rule) (domain : Bytes) → (applies r domain ≡ true) ↔ Applies r domain
unfolding applies
applies_iff (server p dns) domain = test_iff exact p domain
applies_iff (forward k p dns) domain = test_iff k p domain
applies_iff (block k p) domain = test_iff k p domain

abbrev round : Rule → Verdict → Bool → Result (Verdict × Bool)
round r v true = ok (outcome r v, true)
round r v false = ok (v, false)

try_rule-row :
    (r : Rule) (domain : Bytes) (v : Verdict)
    → try_rule (row r) domain v ≡ round r v (applies r domain)
unfolding try_rule forward_if block_rule applies
try_rule-row (server p dns) domain v = ground arith
try_rule-row (forward exact p dns) domain v = ground arith
try_rule-row (forward keyword p dns) domain v = ground arith
try_rule-row (forward suffix p dns) domain v = ground arith
try_rule-row (block exact p) domain v = ground arith
try_rule-row (block keyword p) domain v = ground arith
try_rule-row (block suffix p) domain v = ground arith

match-FirstMatch :
    (rs : List Rule) (domain : Bytes) (v : Verdict)
    → (w : Verdict) × (match_dns_rule (map row rs) domain v ≡ ok w) × FirstMatch domain v rs w
unfolding match_dns_rule
match-FirstMatch [] domain v = (v, refl, unmatched)
match-FirstMatch (r ∷ rs) domain v = elim (Bool-cases (applies r domain)) [
  | inl e ↦
      (outcome r v, ground (arith, try_rule-row r domain v), here ((applies_iff r domain).0 e))
  | inr e ↦
      let (w, run, first) = match-FirstMatch rs domain v in
      (
        w,
        ground (arith, try_rule-row r domain v),
        later (λ a. cc (e, (applies_iff r domain).1 a)) first,
      )
]

FirstMatch-unique :
    {domain : Bytes} {v w u : Verdict} {rs : List Rule}
    → FirstMatch domain v rs w
    → FirstMatch domain v rs u
    → w ≡ u
FirstMatch-unique unmatched unmatched = refl
FirstMatch-unique (here a) (here b) = refl
FirstMatch-unique (here a) (later n f) = absurd (n a)
FirstMatch-unique (later n f) (here a) = absurd (n a)
FirstMatch-unique (later n f) (later m g) = FirstMatch-unique f g

-- Over well-formed rules the loop never throws, and it returns a verdict exactly if the first rule
-- that applies to the domain gives it; where none applies, the verdict is the one passed in.
pub match_dns_rule_iff :
    (rs : List Rule) (domain : Bytes) (v w : Verdict)
    → (match_dns_rule (map row rs) domain v ≡ ok w) ↔ FirstMatch domain v rs w
match_dns_rule_iff rs domain v w =
    let (u, run, first) = match-FirstMatch rs domain v in
    (
      λ e. let same : u ≡ w = cc in subst (FirstMatch domain v rs) same first,
      λ f. rw (FirstMatch-unique f first) run,
    )
