-- ===== src/Config.antt =====
-- The configuration: `struct Conf` of src/struct.h, and `parse_config` of src/main.cpp behind its
-- command line, a machine on the tokens that libyaml scans.
pub mod Fields
pub mod Loading
pub mod RuleFiles
pub mod Defaults
use ip2socks.Common.{
  ℕ, ◌≡◌, refl, Bool, true, false, not, ◌&&◌, Option, none, some, List, [], ◌∷◌, ◌++◌, ◌==◌,
  if◌then◌else◌, Bytes, codes, bytes_eq,
}
use ip2socks.System.{Ip4}
use ip2socks.Device.{Platform, linux, macos, Fate, going, exited}
use ip2socks.Util.{Result, ok, err, split}

-- A `char *` that is NULL is `none`.
pub record Conf : Type 0 where
  pub ip_mode : Option Bytes
  pub dns_mode : Option Bytes
  pub socks_server : Option Bytes
  pub socks_port : Option Bytes
  pub remote_dns_server : Option Bytes
  pub remote_dns_port : Option Bytes
  pub local_dns_port : Option Bytes
  pub relay_none_dns_packet_with_udp : Option Bytes
  pub custom_domian_server_file : Option Bytes
  pub gw : Option Bytes
  pub addr : Option Bytes
  pub netmask : Option Bytes
  pub after_start_shell : Option Bytes
  pub before_shutdown_shell : Option Bytes
  pub domains : List (List Bytes)

-- Where `datap` can point.
pub data Field : Type 0 where
  to_ip_mode to_dns_mode to_socks_server to_socks_port to_remote_dns_server to_remote_dns_port
        to_local_dns_port to_relay_none_dns_packet_with_udp to_custom_domian_server_file to_gw
        to_addr to_netmask to_after_start_shell to_before_shutdown_shell :
      Field

abbrev pub field_name : Field → Bytes
field_name to_ip_mode = codes "ip_mode"
field_name to_dns_mode = codes "dns_mode"
field_name to_socks_server = codes "socks_server"
field_name to_socks_port = codes "socks_port"
field_name to_remote_dns_server = codes "remote_dns_server"
field_name to_remote_dns_port = codes "remote_dns_port"
field_name to_local_dns_port = codes "local_dns_port"
field_name to_relay_none_dns_packet_with_udp = codes "relay_none_dns_packet_with_udp"
field_name to_custom_domian_server_file = codes "custom_domian_server_file"
field_name to_gw = codes "gw"
field_name to_addr = codes "addr"
field_name to_netmask = codes "netmask"
field_name to_after_start_shell = codes "after_start_shell"
field_name to_before_shutdown_shell = codes "before_shutdown_shell"

-- The chain of `strcmp` on a key.
unfoldable pub field_of : Bytes → Option Field
field_of tk =
    if bytes_eq tk (field_name to_ip_mode)
    then some to_ip_mode
    else if bytes_eq tk (field_name to_dns_mode)
    then some to_dns_mode
    else if bytes_eq tk (field_name to_socks_server)
    then some to_socks_server
    else if bytes_eq tk (field_name to_socks_port)
    then some to_socks_port
    else if bytes_eq tk (field_name to_remote_dns_server)
    then some to_remote_dns_server
    else if bytes_eq tk (field_name to_remote_dns_port)
    then some to_remote_dns_port
    else if bytes_eq tk (field_name to_local_dns_port)
    then some to_local_dns_port
    else if bytes_eq tk (field_name to_relay_none_dns_packet_with_udp)
    then some to_relay_none_dns_packet_with_udp
    else if bytes_eq tk (field_name to_custom_domian_server_file)
    then some to_custom_domian_server_file
    else if bytes_eq tk (field_name to_gw)
    then some to_gw
    else if bytes_eq tk (field_name to_addr)
    then some to_addr
    else if bytes_eq tk (field_name to_netmask)
    then some to_netmask
    else if bytes_eq tk (field_name to_after_start_shell)
    then some to_after_start_shell
    else if bytes_eq tk (field_name to_before_shutdown_shell)
    then some to_before_shutdown_shell
    else none

-- `*datap = strdup(tk)`.
unfoldable pub set_field : Field → Bytes → Conf → Conf
set_field to_ip_mode tk c = record c { ip_mode = some tk }
set_field to_dns_mode tk c = record c { dns_mode = some tk }
set_field to_socks_server tk c = record c { socks_server = some tk }
set_field to_socks_port tk c = record c { socks_port = some tk }
set_field to_remote_dns_server tk c = record c { remote_dns_server = some tk }
set_field to_remote_dns_port tk c = record c { remote_dns_port = some tk }
set_field to_local_dns_port tk c = record c { local_dns_port = some tk }
set_field to_relay_none_dns_packet_with_udp tk c = record c {
  relay_none_dns_packet_with_udp = some tk;
}
set_field to_custom_domian_server_file tk c = record c { custom_domian_server_file = some tk }
set_field to_gw tk c = record c { gw = some tk }
set_field to_addr tk c = record c { addr = some tk }
set_field to_netmask tk c = record c { netmask = some tk }
set_field to_after_start_shell tk c = record c { after_start_shell = some tk }
set_field to_before_shutdown_shell tk c = record c { before_shutdown_shell = some tk }

unfoldable pub get_field : Field → Conf → Option Bytes
get_field to_ip_mode c = c.ip_mode
get_field to_dns_mode c = c.dns_mode
get_field to_socks_server c = c.socks_server
get_field to_socks_port c = c.socks_port
get_field to_remote_dns_server c = c.remote_dns_server
get_field to_remote_dns_port c = c.remote_dns_port
get_field to_local_dns_port c = c.local_dns_port
get_field to_relay_none_dns_packet_with_udp c = c.relay_none_dns_packet_with_udp
get_field to_custom_domian_server_file c = c.custom_domian_server_file
get_field to_gw c = c.gw
get_field to_addr c = c.addr
get_field to_netmask c = c.netmask
get_field to_after_start_shell c = c.after_start_shell
get_field to_before_shutdown_shell c = c.before_shutdown_shell

-- The token types that the machine tells apart.
pub data Token : Type 0 where
  stream_start stream_end key value other : Token
  scalar : Bytes → Token

-- `state`, 0 to expect a key and 1 to expect a value; `datap`, at first not initialised; `conf`.
pub record Parser : Type 0 where
  pub state : ℕ
  pub datap : Option Field
  pub conf : Conf

-- Key `tk`: an unrecognised one leaves `datap` where it was.
unfoldable pub scan_key : Bytes → Parser → Parser
scan_key tk p = elim (field_of tk) [ none ↦ p | some f ↦ record p { datap = some f } ]

-- Value `tk`; to write through `datap` before it is set is a fault.
unfoldable pub scan_value : Bytes → Parser → Option Parser
scan_value tk p = elim p.datap [
  | none ↦ none
  | some f ↦ some (record p { conf = set_field f tk p.conf })
]

-- The body of the `switch`.
unfoldable pub scan_token : Token → Parser → Option Parser
scan_token key p = some (record p { state = 0 })
scan_token value p = some (record p { state = 1 })
scan_token (scalar tk) p = if p.state == 0 then some (scan_key tk p) else scan_value tk p
scan_token _ p = some p

-- The loop up to the end of the stream. A scanner that fails gives no such token for ever, and the
-- loop does not end: `none`, as for a fault.
unfoldable pub scan_tokens : List Token → Parser → Option Parser
scan_tokens [] p = none
scan_tokens (stream_end ∷ ts) p = some p
scan_tokens (t ∷ ts) p = elim (scan_token t p) [ none ↦ none | some q ↦ scan_tokens ts q ]

-- The addresses of the stack's interface.
pub record Host : Type 0 where
  pub gw : Ip4
  pub ipaddr : Ip4
  pub netmask : Ip4

unfoldable pub default_host : Host
default_host = record {
  gw = record { a = 10; b = 0; c = 0; d = 1 };
  ipaddr = record { a = 10; b = 0; c = 0; d = 2 };
  netmask = record { a = 255; b = 255; c = 255; d = 0 };
}

module _ (ip4addr_aton : Bytes → Option Ip4) where
  -- `ip4addr_aton` into an address that keeps its value if the text is no address.
  unfoldable pub aton_or : Option Bytes → Ip4 → Ip4
  aton_or none ip = ip
  aton_or (some s) ip = elim (ip4addr_aton s) [ none ↦ ip | some a ↦ a ]

  -- A mode of the device that the platform does not support ends the program.
  unfoldable pub supported : Platform → Bytes → Bool
  supported linux mode = true
  supported macos mode = not (bytes_eq (codes "tap") mode)

  -- What the configuration makes of the default addresses; a missing mode is copied to NULL, a
  -- fault.
  unfoldable pub configure_host : Platform → Conf → Host → Option (Fate Host)
  configure_host os c h =
      let h' : Host = record {
        gw = aton_or c.gw h.gw;
        ipaddr = aton_or c.addr h.ipaddr;
        netmask = aton_or c.netmask h.netmask;
      } in
      elim c.ip_mode [
        | none ↦ none
        | some mode ↦
            if supported os mode
            then (elim c.dns_mode [ none ↦ none | some _ ↦ some (going h') ])
            else some (exited 0)
      ]
