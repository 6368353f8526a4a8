-- ===== src/Dns.antt =====
-- src/dns/dns_parser.c: the domain that a DNS query asks for.
use ip2socks.Common.{◌+◌, Option, none, some, List, [], ◌∷◌, Bytes, length, ltb, if◌then◌else◌}
use ip2socks.System.{Cmd, pure, fault}

-- `ns_initparse` of the resolver library, with the names that `ns_parserr` finds in the questions;
-- `none` is a question that it refuses.
abbrev pub Parse : Type 0
Parse = Bytes → Option (List (Option Bytes))

-- The name is copied into 256 bytes, with its NUL; a longer one is reported and copied all the
-- same.
unfoldable pub hostname_from_question : {S : Type 0} → List (Option Bytes) → Cmd S (Option Bytes)
hostname_from_question [] = pure none
hostname_from_question (none ∷ qs) = pure none
hostname_from_question (some name ∷ qs) =
    if ltb 256 (length name + 1) then fault else pure (some name)

unfoldable pub get_query_domain : {S : Type 0} → Parse → Bytes → Cmd S (Option Bytes)
get_query_domain parse payload s = elim (parse payload) [
  | none ↦ some (none, s)
  | some msg ↦ hostname_from_question msg s
]
