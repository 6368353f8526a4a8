-- ===== src/Examples/Settings.antt =====
-- src/main.cpp on concrete configurations.
use ip2socks.Common.{
  ◌≡◌, ◌↔◌, refl, true, false, Option, none, some, List, [], ◌∷◌, Bytes, codes, All, arith, map,
  bytes_eq, if◌then◌else◌,
}
use ip2socks.Util.{ok}
use ip2socks.Util.Split.{join}
use ip2socks.Rules.{Verdict, match_dns_rule}
use ip2socks.Rules.FirstMatch.{Rule, Kind, FirstMatch}
use ip2socks.Config.Loading.{load_rules}
use ip2socks.Config.{Conf, Field, field_of, get_field, Parser, scan_tokens}
use ip2socks.Config.Fields.{document, named, last_value, scan_tokens-last_value}
use ip2socks.Config.RuleFiles.{Line, text, RuleFile, Readable, all_rules, load_rules-FirstMatch}

abbrev pub empty_conf : Conf
empty_conf = record {
  ip_mode = none;
  dns_mode = none;
  socks_server = none;
  socks_port = none;
  remote_dns_server = none;
  remote_dns_port = none;
  local_dns_port = none;
  relay_none_dns_packet_with_udp = none;
  custom_domian_server_file = none;
  gw = none;
  addr = none;
  netmask = none;
  after_start_shell = none;
  before_shutdown_shell = none;
  domains = [];
}

abbrev fresh : Parser
fresh = record { state = 0; datap = none; conf = empty_conf }

abbrev pairs : List (Field × Bytes)
pairs =
    (Field.to_dns_mode, codes "tcp")
    ∷ (Field.to_gw, codes "10.0.0.1")
    ∷ (Field.to_dns_mode, codes "udp")
    ∷ []

scan_tokens-last_value_example :
    (q : Parser) × (scan_tokens (document (named pairs)) fresh ≡ some q)
    × (get_field Field.to_dns_mode q.conf ≡ some (codes "udp"))
unfolding last_value
scan_tokens-last_value_example = scan_tokens-last_value Field.to_dns_mode pairs fresh

unknown : field_of (codes "color") ≡ none
unfolding field_of
unknown = refl

abbrev first_file : List Line
first_file = Line.comment (codes "ads") ∷ Line.rule (Rule.block Kind.suffix (codes "ads.org")) ∷ []

abbrev second_file : List Line
second_file = Line.blank ∷ Line.rule (Rule.server (codes "a.org") (codes "1.1.1.1")) ∷ []

abbrev files : List RuleFile
files = (codes "a", first_file) ∷ (codes "b", second_file) ∷ []

-- A directory with the two files.
abbrev lines_of : Bytes → Option (List Bytes)
lines_of s =
    if bytes_eq s (codes "a")
    then some (map text first_file)
    else if bytes_eq s (codes "b")
    then some (map text second_file)
    else none

abbrev named_conf : Conf
named_conf = record empty_conf { custom_domian_server_file = some (codes "a;b") }

abbrev no_verdict : Verdict
no_verdict = record { matched = false; dns_server = []; blocked = false }

files-Readable : All (Readable lines_of) files
unfolding join
files-Readable = ground arith

load_rules-FirstMatch_example :
    (c : Conf) × (load_rules lines_of named_conf ≡ some (ok c))
    × ((match_dns_rule c.domains (codes "x.ads.org") no_verdict
          ≡ ok (record no_verdict { blocked = true }))
        ↔ FirstMatch
            (codes "x.ads.org")
            no_verdict
            (all_rules files)
            (record no_verdict { blocked = true }))
unfolding join
load_rules-FirstMatch_example =
    load_rules-FirstMatch lines_of named_conf files (codes "x.ads.org") no_verdict
      (record no_verdict { blocked = true }) (λ e. cc) files-Readable (omega arith) refl
