-- ===== src/Rules.antt =====
-- `match_dns_rule` of src/util.cpp: the configured rules, each a row of texts, against a domain.
pub mod FirstMatch
pub mod Outcomes
use ip2socks.Common.{
  ℕ, zero, suc, ◌≡◌, refl, Bool, true, false, ◌||◌, List, [], ◌∷◌, ◌==◌, if◌then◌else◌, Bytes,
  codes, bytes_eq,
}
use ip2socks.Util.{out_of_range, Result, ok, err, ◌>>=◌, end_with, has_substring}

-- `v.at(i)`.
unfoldable pub at {ℓ} : {A : Type ℓ} → List A → ℕ → Result A
at [] i = err out_of_range
at (x ∷ xs) zero = ok x
at (x ∷ xs) (suc i) = at xs i

-- A `std::string` made from `s.c_str()` ends at the first NUL.
unfoldable pub c_str : Bytes → Bytes
c_str [] = []
c_str (c ∷ s) = if c == 0 then [] else c ∷ c_str s

-- What `match_dns_rule` writes through its three pointers.
pub record Verdict : Type 0 where
  pub matched : Bool
  pub dns_server : Bytes
  pub blocked : Bool

-- A round of the loop: the verdict after it, and whether the round ends the loop by `break`.
abbrev pub Round : Type 0
Round = Result (Verdict × Bool)

-- `*matched = true; *dns_server = row.at(2); break;` if the test holds.
unfoldable pub forward_if : Bool → List Bytes → Verdict → Round
unfolding at
forward_if false row v = ok (v, false)
forward_if true row v = do
  server ← at row 2
  ok (record v { matched = true; dns_server = server }, true)

-- `*blocked = true; break;` if the test holds.
unfoldable pub block_if : Bool → Verdict → Round
block_if false v = ok (v, false)
block_if true v = ok (record v { blocked = true }, true)

-- The `block=` branch.
unfoldable pub block_rule : List Bytes → Bytes → Verdict → Round
unfolding at c_str block_if
block_rule row domain v = do
  name ← at row 2
  let kind = c_str name
  if bytes_eq kind (codes "domain")
      then (do p ← at row 1; block_if (bytes_eq domain p) v)
      else if bytes_eq kind (codes "domain_keyword")
      then (do p ← at row 1; block_if (has_substring domain p) v)
      else if bytes_eq kind (codes "domain_suffix")
      then (do p ← at row 1; block_if (end_with domain p) v)
      else ok (v, false)

-- The body of the loop.
unfoldable pub try_rule : List Bytes → Bytes → Verdict → Round
unfolding at c_str
try_rule row domain v = do
  name ← at row 0
  let rule = c_str name
  if bytes_eq rule (codes "server=") || bytes_eq rule (codes "domain=")
      then (do p ← at row 1; forward_if (bytes_eq domain p) row v)
      else if bytes_eq rule (codes "domain_keyword=")
      then (do p ← at row 1; forward_if (has_substring domain p) row v)
      else if bytes_eq rule (codes "domain_suffix=")
      then (do p ← at row 1; forward_if (end_with domain p) row v)
      else if bytes_eq rule (codes "block=")
      then block_rule row domain v
      else ok (v, false)

unfoldable pub match_dns_rule : List (List Bytes) → Bytes → Verdict → Result Verdict
match_dns_rule [] domain v = ok v
match_dns_rule (row ∷ rows) domain v = elim (try_rule row domain v) [
  | err e ↦ err e
  | ok (v', stop) ↦ elim stop [ true ↦ ok v' | false ↦ match_dns_rule rows domain v' ]
]
