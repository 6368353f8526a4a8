-- ===== src/Rules/Outcomes.antt =====
-- What `match_dns_rule` of src/util.cpp can return over any rows at all, well-formed or not.
use ip2socks.Common.{◌≡◌, ◌⊎◌, refl, Bool, true, false, List, [], ◌∷◌, arith, Bytes}
use ip2socks.Util.{ok, err}
use ip2socks.Rules.{Verdict, Round, try_rule, match_dns_rule, forward_if, block_rule}

-- The verdict is untouched, or a server was chosen, or the domain was blocked.
abbrev pub Decided : Verdict → Verdict → Type 0
Decided v w =
    (w ≡ v)
    ⊎ (w ≡ record v { matched = true; dns_server = w.dns_server })
    ⊎ (w ≡ record v { blocked = true })

-- The same of one round: it goes on exactly if it left the verdict alone.
abbrev Rounded : Verdict → Verdict → Bool → Type 0
Rounded v w false = w ≡ v
Rounded v w true =
    (w ≡ record v { matched = true; dns_server = w.dns_server }) ⊎ (w ≡ record v { blocked = true })

block_rule-Rounded :
    (row : List Bytes) (domain : Bytes) (v w : Verdict) (stop : Bool)
    → block_rule row domain v ≡ ok (w, stop)
    → Rounded v w stop
unfolding block_rule
block_rule-Rounded row domain v w stop e = ground arith

forward_if-Rounded :
    (b : Bool) (row : List Bytes) (v w : Verdict) (stop : Bool)
    → forward_if b row v ≡ ok (w, stop)
    → Rounded v w stop
unfolding forward_if
forward_if-Rounded b row v w stop e = ground arith

try_rule-Rounded :
    (row : List Bytes) (domain : Bytes) (v w : Verdict) (stop : Bool)
    → try_rule row domain v ≡ ok (w, stop)
    → Rounded v w stop
unfolding try_rule
try_rule-Rounded row domain v w stop e = grind (arith, block_rule-Rounded, forward_if-Rounded)

after_round :
    (row : List Bytes) (rows : List (List Bytes)) (domain : Bytes) (v w : Verdict) (r : Round)
    → try_rule row domain v ≡ r
    → match_dns_rule (row ∷ rows) domain v ≡ ok w
    → ((u : Verdict) → match_dns_rule rows domain u ≡ ok w → Decided u w)
    → Decided v w
unfolding match_dns_rule
after_round row rows domain v w (err x) q e ih = ground arith
after_round row rows domain v w (ok (u, true)) q e ih =
    ground (arith, try_rule-Rounded row domain v u true q)
after_round row rows domain v w (ok (u, false)) q e ih =
    ground (arith, try_rule-Rounded row domain v u false q, ih u)

-- Whatever the rows hold, a run that does not throw leaves the verdict alone, or sets `matched`
-- with some server, or sets `blocked`, and never sets both.
pub match_dns_rule-Decided :
    (rows : List (List Bytes)) (domain : Bytes) (v w : Verdict)
    → match_dns_rule rows domain v ≡ ok w
    → Decided v w
unfolding match_dns_rule
match_dns_rule-Decided [] domain v w e = ground arith
match_dns_rule-Decided (row ∷ rows) domain v w e =
    after_round row rows domain v w (try_rule row domain v) refl e
      (λ u. match_dns_rule-Decided rows domain u w)
