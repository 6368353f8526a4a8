-- ===== src/Config/Defaults.antt =====
-- The defaults of `parse_config` of src/main.cpp.
use ip2socks.Common.{◌≡◌, ◌↔◌, ◌⊎◌, Option, none, some, Bytes, codes, bytes_eq_iff, refl, arith}
use ip2socks.System.{Ip4}
use ip2socks.Device.{linux, macos, exited}
use ip2socks.Config.{Conf, Host, supported, configure_host}

-- On Linux the defaults are applied without a fault exactly if the file gave both modes: neither
-- mode has a default that the program survives.
configure_host-none_iff :
    (ip4addr_aton : Bytes → Option Ip4) (c : Conf) (h : Host)
    → (configure_host ip4addr_aton linux c h ≡ none) ↔ ((c.ip_mode ≡ none) ⊎ (c.dns_mode ≡ none))
unfolding configure_host supported
configure_host-none_iff ip4addr_aton c h = ground arith

-- On macOS the mode "tap" ends the program, whatever else the file gave.
configure_host_tap :
    (ip4addr_aton : Bytes → Option Ip4) (c : Conf) (h : Host)
    → c.ip_mode ≡ some (codes "tap")
    → configure_host ip4addr_aton macos c h ≡ some (exited 0)
unfolding configure_host supported
configure_host_tap ip4addr_aton c h e =
    let same = (bytes_eq_iff (codes "tap") (codes "tap")).1 refl in ground arith
