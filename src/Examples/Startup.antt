-- ===== src/Examples/Startup.antt =====
-- src/main.cpp and the set-up of the devices with a concrete kernel and configuration.
use ip2socks.Common.{◌≡◌, ◌↔◌, inr, refl, true, none, some, [], ◌∷◌, codes, arith, List}
use ip2socks.System.{LwipErr, err_ok}
use ip2socks.Config.{Conf, default_host}
use ip2socks.Device.{linux, Fate, going, exited}
use ip2socks.Numbers.{decimal, decimal_on}
use ip2socks.Setup.{
  tap, etharp_out, device_opened, interface_set, command_run, flags_set, with_nonblock,
  setnonblocking, dotted, ifconfig_command, name_device, create_device, configure_tap, init_tap,
  tapif_init, Calls, Kernel, Netif, tunif_init,
}
use ip2socks.Setup.Outcomes.{Names}
use ip2socks.Setup.Tap.{TapEnded, tapif_init-TapEnded}
use ip2socks.Setup.Tun.{TunEnded, tunif_init-TunEnded}
use ip2socks.Start.{
  Opt, Options, scan_options, parse_config, read_config, Files, sigterm, shell_run, Starting, Stack,
  on_signal, start,
}
use ip2socks.Start.Shell.{Signalled, on_signal_iff}
use ip2socks.Start.Running.{blank, Ended, start-Ended}
use ip2socks.Examples.Settings.{empty_conf}

-- A kernel that grants every call.
abbrev kernel : Kernel
kernel = record {
  open_device = λ t. some 5;
  set_interface = λ t fd kind. some (codes "tun0");
  system = λ t s. some 0;
  get_flags = λ t fd. some 2;
  set_flags = λ t fd flags. true;
  has_memory = λ t. true;
}

kernel-Names : Names kernel
kernel-Names t fd kind name e = let same : name ≡ codes "tun0" = cc in rw same (omega arith)

abbrev loaded : Conf
loaded = record empty_conf {
  ip_mode = some (codes "tun");
  gw = some (codes "10.0.0.1");
  addr = some (codes "10.0.0.2");
  after_start_shell = some (codes "/etc/up.sh");
  before_shutdown_shell = some (codes "/etc/down.sh");
}

abbrev stack : Stack
stack = record {
  new_udp = true;
  bind_udp = λ ip. true;
  new_tcp = true;
  bind_tcp = true;
  has_memory = true;
  garbage = default_host.gw;
}

abbrev files : Files
files = record {
  tokens_of = λ s. none;
  lines_of = λ s. none;
  ip4addr_aton = λ s. some default_host.ipaddr;
}

abbrev before : Starting
before = record { calls = []; log = [] }

-- What SIGTERM leaves.
abbrev after : Starting
after = record { calls = []; log = shell_run (codes "sh /etc/down.sh 10.0.0.1") ∷ [] }

tunif_init-TunEnded_example :
    (f : Fate (LwipErr × Netif)) × (u : Calls) × (tunif_init kernel
        (blank stack files loaded kernel default_host)
        []
      ≡ some (f, u))
    × TunEnded kernel (blank stack files loaded kernel default_host) [] f u
tunif_init-TunEnded_example =
    tunif_init-TunEnded kernel (blank stack files loaded kernel default_host) [] kernel-Names

tapif_init-TapEnded_example :
    (f : Fate (LwipErr × Netif)) × (u : Calls) × (tapif_init kernel
        (blank stack files loaded kernel default_host)
        []
      ≡ some (f, u))
    × TapEnded kernel (blank stack files loaded kernel default_host) [] f u
tapif_init-TapEnded_example =
    tapif_init-TapEnded kernel (blank stack files loaded kernel default_host) [] kernel-Names

on_signal_iff_example :
    (on_signal loaded sigterm before ≡ some (exited 0, after))
    ↔ Signalled sigterm loaded before (exited 0) after
on_signal_iff_example = on_signal_iff sigterm loaded before after (exited 0)

start-Ended_example :
    (f : Fate (Unit {0})) × (s' : Starting) × (start stack kernel files loaded default_host before
      ≡ some (f, s'))
    × Ended stack files loaded kernel default_host (codes "10.0.0.2") before f s'
start-Ended_example =
    start-Ended stack files loaded kernel default_host (codes "10.0.0.2") before kernel-Names refl
      refl (inr (codes "10.0.0.1", refl)) refl

-- `-h` ends the program whatever follows, and so does a command line without `-c`.
help_first : (opts : List Opt) (o : Options) → scan_options (Opt.help ∷ opts) o ≡ exited 0
unfolding scan_options
help_first opts o = refl

no_file : parse_config files linux empty_conf (Opt.debug ∷ Opt.unknown ∷ []) ≡ some (exited 0)
unfolding parse_config scan_options
no_file = refl

-- The last of two files is read.
abbrev two_files : List Opt
two_files = Opt.config (codes "a.yml") ∷ Opt.config (codes "b.yml") ∷ []

last_file :
    parse_config files linux empty_conf two_files
    ≡ read_config files linux empty_conf (codes "b.yml")
unfolding parse_config scan_options
last_file = refl

-- A TAP device gets its address and netmask by one command.
abbrev tap_calls : Calls
tap_calls =
    command_run (codes "/sbin/ifconfig tun0 inet 10.0.0.1 netmask 255.255.255.0") (some 0)
    ∷ flags_set 5 2050 true
    ∷ interface_set 5 tap (some (codes "tun0"))
    ∷ device_opened (some 5)
    ∷ []

abbrev tap_netif : Netif
tap_netif = record (blank stack files loaded kernel default_host) {
  name = codes "tp";
  output = etharp_out;
  fd = some 5;
  hwaddr = 0x02 ∷ 0x12 ∷ 0x34 ∷ 0x56 ∷ 0x78 ∷ 0xab ∷ [];
  link_up = true;
  mtu = 1500;
}

tap_run :
    tapif_init kernel (blank stack files loaded kernel default_host) []
    ≡ some (going (err_ok, tap_netif), tap_calls)
unfolding tapif_init init_tap create_device name_device configure_tap setnonblocking with_nonblock
    ifconfig_command dotted decimal decimal_on default_host
tap_run = refl
