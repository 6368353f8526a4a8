-- ===== src/Config/Fields.antt =====
-- Which field of `struct Conf` a value of the configuration file reaches.
use ip2socks.Common.{
  ℕ, ◌≡◌, refl, ap, ◌∙◌, Bool, Option, none, some, List, [], ◌∷◌, ◌==◌, if◌then◌else◌, Bytes, arith,
}
use ip2socks.Config.{
  Conf, Field, to_ip_mode, to_dns_mode, to_socks_server, to_socks_port, to_remote_dns_server,
  to_remote_dns_port, to_local_dns_port, to_relay_none_dns_packet_with_udp,
  to_custom_domian_server_file, to_gw, to_addr, to_netmask, to_after_start_shell,
  to_before_shutdown_shell, field_name, field_of, set_field, get_field, Token, key, value, scalar,
  other, stream_start, stream_end, Parser, scan_key, scan_value, scan_token, scan_tokens,
}

-- A place in the order of the fields, to compare them by.
abbrev place : Field → ℕ
place to_ip_mode = 0
place to_dns_mode = 1
place to_socks_server = 2
place to_socks_port = 3
place to_remote_dns_server = 4
place to_remote_dns_port = 5
place to_local_dns_port = 6
place to_relay_none_dns_packet_with_udp = 7
place to_custom_domian_server_file = 8
place to_gw = 9
place to_addr = 10
place to_netmask = 11
place to_after_start_shell = 12
place to_before_shutdown_shell = 13

abbrev pub same : Field → Field → Bool
same f g = place f == place g

field_of-field_name : (f : Field) → field_of (field_name f) ≡ some f
unfolding field_of
field_of-field_name to_ip_mode = refl
field_of-field_name to_dns_mode = refl
field_of-field_name to_socks_server = refl
field_of-field_name to_socks_port = refl
field_of-field_name to_remote_dns_server = refl
field_of-field_name to_remote_dns_port = refl
field_of-field_name to_local_dns_port = refl
field_of-field_name to_relay_none_dns_packet_with_udp = refl
field_of-field_name to_custom_domian_server_file = refl
field_of-field_name to_gw = refl
field_of-field_name to_addr = refl
field_of-field_name to_netmask = refl
field_of-field_name to_after_start_shell = refl
field_of-field_name to_before_shutdown_shell = refl

get_field-set_field :
    (f g : Field) (v : Bytes) (c : Conf)
    → get_field g (set_field f v c) ≡ (if same f g then some v else get_field g c)
unfolding get_field set_field
get_field-set_field to_ip_mode g v c = ground arith
get_field-set_field to_dns_mode g v c = ground arith
get_field-set_field to_socks_server g v c = ground arith
get_field-set_field to_socks_port g v c = ground arith
get_field-set_field to_remote_dns_server g v c = ground arith
get_field-set_field to_remote_dns_port g v c = ground arith
get_field-set_field to_local_dns_port g v c = ground arith
get_field-set_field to_relay_none_dns_packet_with_udp g v c = ground arith
get_field-set_field to_custom_domian_server_file g v c = ground arith
get_field-set_field to_gw g v c = ground arith
get_field-set_field to_addr g v c = ground arith
get_field-set_field to_netmask g v c = ground arith
get_field-set_field to_after_start_shell g v c = ground arith
get_field-set_field to_before_shutdown_shell g v c = ground arith

-- The tokens of a file that gives values to keys, one after the other.
abbrev pub entries : List (Bytes × Bytes) → List Token
entries [] = other ∷ stream_end ∷ []
entries ((k, v) ∷ es) = key ∷ scalar k ∷ value ∷ scalar v ∷ entries es

abbrev pub document : List (Bytes × Bytes) → List Token
document es = stream_start ∷ other ∷ entries es

-- A file that only has keys of the program.
abbrev pub named : List (Field × Bytes) → List (Bytes × Bytes)
named [] = []
named ((f, v) ∷ es) = (field_name f, v) ∷ named es

-- The last value that the file gives to a field, or the one it had before.
unfoldable pub last_value : Field → List (Field × Bytes) → Option Bytes → Option Bytes
last_value g [] d = d
last_value g ((f, v) ∷ es) d = last_value g es (if same f g then some v else d)

known_entry :
    (k v : Bytes) (f : Field) (es : List (Bytes × Bytes)) (p : Parser)
    → field_of k ≡ some f
    → scan_tokens (entries ((k, v) ∷ es)) p
      ≡ scan_tokens (entries es) (record { state = 1; datap = some f; conf = set_field f v p.conf })
unfolding scan_tokens scan_token scan_key scan_value
known_entry k v f es p known = ground arith

scan-entries :
    (g : Field) (es : List (Field × Bytes)) (p : Parser)
    → (q : Parser) × (scan_tokens (entries (named es)) p ≡ some q)
      × (get_field g q.conf ≡ last_value g es (get_field g p.conf))
unfolding last_value scan_tokens scan_token
scan-entries g [] p = (p, refl, refl)
scan-entries g ((f, v) ∷ es) p =
    let (q, ran, got) =
      scan-entries g es (record { state = 1; datap = some f; conf = set_field f v p.conf }) in
    (
      q,
      known_entry (field_name f) v f (named es) p (field_of-field_name f) ∙ ran,
      got ∙ ap (last_value g es) (get_field-set_field f g v p.conf),
    )

-- On a file with the program's keys only, in any order and number, the machine ends without a fault
-- from any state, and each field then holds the last value that the file gives to it, or what it
-- held before.
pub scan_tokens-last_value :
    (g : Field) (es : List (Field × Bytes)) (p : Parser)
    → (q : Parser) × (scan_tokens (document (named es)) p ≡ some q)
      × (get_field g q.conf ≡ last_value g es (get_field g p.conf))
unfolding scan_tokens scan_token
scan_tokens-last_value g es p = scan-entries g es p

unknown_entry :
    (k v : Bytes) (f : Field) (es : List (Bytes × Bytes)) (p : Parser)
    → field_of k ≡ none
    → p.datap ≡ some f
    → scan_tokens (entries ((k, v) ∷ es)) p
      ≡ scan_tokens (entries es) (record { state = 1; datap = some f; conf = set_field f v p.conf })
unfolding scan_tokens scan_token scan_key scan_value
unknown_entry k v f es p unknown at_f = ground arith

-- If the file gives a value to a field, and then a value to a key that the program does not know,
-- the field holds the value of the unknown key.
unknown_key_overwrites :
    (f : Field) (v : Bytes) (k w : Bytes) (p : Parser)
    → field_of k ≡ none
    → (q : Parser) × (scan_tokens (document ((field_name f, v) ∷ (k, w) ∷ [])) p ≡ some q)
      × (get_field f q.conf ≡ some w)
unfolding scan_tokens scan_token
unknown_key_overwrites f v k w p unknown =
    let c = set_field f v p.conf in
    (
      record { state = 1; datap = some f; conf = set_field f w c },
      known_entry (field_name f) v f ((k, w) ∷ []) p (field_of-field_name f)
          ∙ unknown_entry k w f [] (record { state = 1; datap = some f; conf = c }) unknown refl,
      get_field-set_field f f w c ∙ ground arith,
    )

-- If the first key of the file is one that the program does not know, its value is written through
-- a pointer that was never set.
pub unknown_key_first :
    (k w : Bytes) (es : List (Bytes × Bytes)) (c : Conf)
    → field_of k ≡ none
    → scan_tokens (document ((k, w) ∷ es)) (record { state = 0; datap = none; conf = c }) ≡ none
unfolding scan_tokens scan_token scan_key scan_value
unknown_key_first k w es c unknown = ground arith
