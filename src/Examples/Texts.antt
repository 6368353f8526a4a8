-- ===== src/Examples/Texts.antt =====
-- src/util.cpp on concrete configuration lines and domains.
use ip2socks.Common.{
  ℕ, ◌≡◌, ◌↔◌, refl, true, false, some, List, [], ◌∷◌, ◌++◌, map, Bytes, codes, All, arith,
}
use ip2socks.Numbers.{atoi, decimal, decimal_on}
use ip2socks.Util.{ok, err, out_of_range, split, end_with, has_substring}
use ip2socks.Util.Split.{Lacks, join, join-split}
use ip2socks.Util.Substrings.{has_substring_iff}
use ip2socks.Rules.{Verdict, try_rule, block_rule, match_dns_rule}
use ip2socks.Rules.FirstMatch.{Rule, Kind, row, FirstMatch, match_dns_rule_iff}
use ip2socks.Rules.Outcomes.{Decided, match_dns_rule-Decided}

slash : ℕ
slash = 47

-- The text between the last delimiter and the end of the line is a part, also an empty one.
split_line :
    split (codes "block=/b.org/domain") (codes "/")
    ≡ some (ok (codes "block=" ∷ codes "b.org" ∷ codes "domain" ∷ []))
unfolding split
split_line = refl

split_ends : split (codes "a//") (codes "/") ≡ some (ok (codes "a" ∷ [] ∷ [] ∷ []))
unfolding split
split_ends = refl

port_text : atoi (codes " -12a") ≡ 4294967284
unfolding atoi
port_text = refl

port_printed : decimal 65535 ≡ codes "65535"
unfolding decimal decimal_on
port_printed = refl

join-split_example :
    (ps : List Bytes) × (split (codes "server=/a") (47 ∷ []) ≡ some (ok ps))
    × All (Lacks 47) ps
    × (join 47 ps ≡ codes "server=/a")
join-split_example = join-split (codes "server=/a") 47 (omega arith)

has_substring_iff_example :
    (has_substring (codes "xabx") (codes "ab") ≡ true)
    ↔ ((before : Bytes) × (after : Bytes) × (codes "xabx" ≡ before ++ (codes "ab" ++ after)))
has_substring_iff_example = has_substring_iff (codes "xabx") (codes "ab")

abbrev no_verdict : Verdict
no_verdict = record { matched = false; dns_server = []; blocked = false }

-- The rules of a small configuration.
abbrev rules : List Rule
rules =
    Rule.block Kind.suffix (codes "ads.org")
    ∷ Rule.forward Kind.keyword (codes "cdn") (codes "8.8.8.8")
    ∷ Rule.server (codes "a.org") (codes "1.1.1.1")
    ∷ []

blocked_first :
    match_dns_rule (map row rules) (codes "x.ads.org") no_verdict
    ≡ ok (record no_verdict { blocked = true })
unfolding match_dns_rule try_rule block_rule end_with
blocked_first = refl

short_row : match_dns_rule ((codes "domain=" ∷ []) ∷ []) (codes "a") no_verdict ≡ err out_of_range
unfolding match_dns_rule try_rule
short_row = refl

match_dns_rule_iff_example :
    (match_dns_rule (map row rules) (codes "x.ads.org") no_verdict
      ≡ ok (record no_verdict { blocked = true }))
    ↔ FirstMatch (codes "x.ads.org") no_verdict rules (record no_verdict { blocked = true })
match_dns_rule_iff_example =
    match_dns_rule_iff rules (codes "x.ads.org") no_verdict (record no_verdict { blocked = true })

match_dns_rule-Decided_example : Decided no_verdict (record no_verdict { blocked = true })
match_dns_rule-Decided_example =
    match_dns_rule-Decided (map row rules) (codes "x.ads.org") no_verdict
      (record no_verdict { blocked = true }) blocked_first
