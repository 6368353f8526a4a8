-- ===== src/Start.antt =====
-- src/main.cpp from the command line to the event loop, with `tcp_raw_init` of src/tcp_raw.cpp and
-- `udp_raw_init` of src/udp_raw.cpp.
pub mod Shell
pub mod Running
use ip2socks.Common.{
  ℕ, Bool, true, false, Option, none, some, List, [], ◌∷◌, ◌++◌, Bytes, codes, bytes_eq,
  if◌then◌else◌,
}
use ip2socks.System.{Ip4, LwipErr, Cmd, pure, fault, ◌>>=◌, ◌>>◌}
use ip2socks.Util.{ok, err}
use ip2socks.Config.{Conf, Token, Parser, scan_tokens, Host, default_host, aton_or, configure_host}
use ip2socks.Config.Loading.{load_rules}
use ip2socks.Device.{Platform, linux, Fate, going, exited, PacketTrace, Device}
use ip2socks.Tun.{tunif_input}
use ip2socks.Tap.{tapif_input}
use ip2socks.Setup.{DeviceKind, tun, tap, Calls, Kernel, Netif, unset, tunif_init, tapif_init}

-- What `getopt_long` gives, in order.
pub data Opt : Type 0 where
  debug help unknown : Opt
  config : Bytes → Opt

pub record Options : Type 0 where
  pub debug_on : Bool
  pub config_file : Option Bytes

unfoldable pub scan_options : List Opt → Options → Fate Options
scan_options [] o = going o
scan_options (debug ∷ opts) o = scan_options opts (record o { debug_on = true })
scan_options (help ∷ opts) o = exited 0
scan_options (unknown ∷ opts) o = scan_options opts o
scan_options (config file ∷ opts) o = scan_options opts (record o { config_file = some file })

-- The files that can be opened: the tokens of a configuration, and the lines of a rule file.
pub record Files : Type 0 where
  pub tokens_of : Bytes → Option (List Token)
  pub lines_of : Bytes → Option (List Bytes)
  pub ip4addr_aton : Bytes → Option Ip4

module _ (files : Files) (os : Platform) (fresh : Conf) where
  -- `parse_config` behind its options. A file that cannot be opened is read all the same, a fault;
  -- so is an exception of `split`.
  unfoldable pub read_config : Bytes → Option (Fate (Conf × Host))
  read_config file = elim (files.tokens_of file) [
    | none ↦ none
    | some ts ↦ elim (scan_tokens ts (record { state = 0; datap = none; conf = fresh })) [
      | none ↦ none
      | some p ↦ elim (configure_host files.ip4addr_aton os p.conf default_host) [
        | none ↦ none
        | some f ↦ elim f [
          | exited code ↦ some (exited code)
          | going host ↦ elim (load_rules files.lines_of p.conf) [
            | none ↦ none
            | some r ↦ elim r [ err e ↦ none | ok c ↦ some (going (c, host)) ]
          ]
        ]
      ]
    ]
  ]

  unfoldable pub parse_config : List Opt → Option (Fate (Conf × Host))
  parse_config opts = elim (scan_options opts (record { debug_on = false; config_file = none })) [
    | exited n ↦ some (exited n)
    | going o ↦ elim o.config_file [ none ↦ some (exited 0) | some file ↦ read_config file ]
  ]

pub data SignalKind : Type 0 where
  sigterm sigint sigusr2 : SignalKind

-- What `main` has set up; `tcp_listening` is the call of `tcp_accept`.
pub data StartEvent : Type 0 where
  interface_added : DeviceKind → LwipErr → StartEvent
  interface_up : StartEvent
  udp_listening : Ip4 → ℕ → StartEvent
  tcp_listening : StartEvent
  signal_watched : SignalKind → StartEvent
  device_watched : ℕ → StartEvent
  shell_run : Bytes → StartEvent
  loop_run : StartEvent

pub record Starting : Type 0 where
  pub calls : Calls
  pub log : List StartEvent

-- Whether lwIP has a pcb and can bind it, and whether there is memory; `garbage` is what an address
-- on the stack holds.
pub record Stack : Type 0 where
  pub new_udp : Bool
  pub bind_udp : Ip4 → Bool
  pub new_tcp : Bool
  pub bind_tcp : Bool
  pub has_memory : Bool
  pub garbage : Ip4

abbrev pub S : Type 0 → Type 0
S = Cmd Starting

abbrev pub note : StartEvent → S (Unit {0})
note e s = some (tt, record s { log = e ∷ s.log })

-- A `char *` that is used: NULL is a fault.
abbrev pub need : {A : Type 0} → Option A → S A
need none = fault
need (some a) = pure a

-- The command line of a shell script: in the mode "tun" its argument is the gateway.
unfoldable pub shell_line : Bytes → Conf → S Bytes
shell_line script c = do
  mode ← need c.ip_mode
  address ← need (if bytes_eq mode (codes "tun") then c.gw else c.addr)
  pure (codes "sh " ++ (script ++ (codes " " ++ address)))

unfoldable pub run_script : Option Bytes → Conf → S (Unit {0})
run_script none c = pure tt
run_script (some script) c = do line ← shell_line script c; note (shell_run line)

unfoldable pub on_shell : Conf → S (Unit {0})
on_shell c = run_script c.after_start_shell c

unfoldable pub down_shell : Conf → S (Unit {0})
down_shell c = run_script c.before_shutdown_shell c

-- `sigterm_cb`, `sigint_cb` and `sigusr2_cb`.
unfoldable pub on_signal : Conf → SignalKind → S (Fate (Unit {0}))
on_signal c sigterm = do down_shell c; pure (exited 0)
on_signal c sigint = do down_shell c; pure (exited 0)
on_signal c sigusr2 = pure (going tt)

module _ (stack : Stack) where
  unfoldable pub tcp_raw_init : S (Unit {0})
  tcp_raw_init =
      if stack.new_tcp then (if stack.bind_tcp then note tcp_listening else pure tt) else pure tt

  -- The address on the stack keeps what it held if the text is no address.
  unfoldable pub udp_raw_init : Files → Conf → S (Unit {0})
  udp_raw_init files c =
      if stack.new_udp
      then (do
        addr ← need c.addr
        let ip = aton_or files.ip4addr_aton (some addr) stack.garbage
        if stack.bind_udp ip then note (udp_listening ip 53) else pure tt)
      else pure tt

  module _ (k : Kernel) where
    -- `netif_add`, whose NULL is not noticed: it calls the device's set-up.
    unfoldable pub add_interface : Conf → Host → S (Fate Netif)
    add_interface c host = do
      mode ← need c.ip_mode
      let n : Netif = record {
        gw = host.gw;
        netmask = host.netmask;
        name = [];
        output = unset;
        fd = none;
        hwaddr = [];
        link_up = false;
        mtu = 0;
      }
      let kind : DeviceKind = if bytes_eq mode (codes "tun") then tun else tap
      r ← λ s.
          elim ((if bytes_eq mode (codes "tun") then tunif_init k n else tapif_init k n) s.calls) [
            | none ↦ none
            | some (f, calls) ↦ some (f, record s { calls = calls })
          ]
      elim r [
        | exited code ↦ pure (exited code)
        | going (e, n') ↦ do note (interface_added kind e); pure (going n')
      ]

    -- The watchers, the script and the loop; the descriptor is read through `netif.state`.
    unfoldable pub watch : Conf → Netif → S (Fate (Unit {0}))
    watch c n = do
      note (signal_watched sigterm)
      note (signal_watched sigint)
      note (signal_watched sigusr2)
      fd ← need n.fd
      note (device_watched fd)
      on_shell c
      note loop_run
      pure (going tt)

    -- `main` behind `parse_config`; `return -1` is the exit status 255.
    unfoldable pub start : Files → Conf → Host → S (Fate (Unit {0}))
    start files c host = do
      r ← add_interface c host
      elim r [
        | exited code ↦ pure (exited code)
        | going n ↦ do
          note interface_up
          udp_raw_init files c
          tcp_raw_init
          if stack.has_memory then watch c n else pure (exited 255)
      ]

    unfoldable pub main : Files → Conf → List Opt → S (Fate (Unit {0}))
    main files fresh opts s = elim (parse_config files linux fresh opts) [
      | none ↦ none
      | some r ↦ elim r [
        | exited code ↦ some (exited code, s)
        | going (c, host) ↦ start files c host s
      ]
    ]

-- What the loop calls when the device is readable.
unfoldable pub tuntap_read_cb : Device → Conf → Cmd PacketTrace (Fate (Unit {0}))
tuntap_read_cb dev c t = elim c.ip_mode [
  | none ↦ none
  | some mode ↦
      if bytes_eq mode (codes "tun")
      then (tunif_input dev >>= λ _. pure (going tt)) t
      else tapif_input dev t
]
