-- ===== src/Start/Running.antt =====
-- What `main` of src/main.cpp has set up when its loop runs, in the mode "tun".
use ip2socks.Common.{
  ℕ, ◌<◌, ◌≡◌, ◌⊎◌, inl, inr, refl, ◌∙◌, true, false, ◌&&◌, Option, none, some, List, [], ◌∷◌, ◌++◌,
  Bytes, codes, bytes_eq_iff, arith, if◌then◌else◌, Bool-cases,
}
use ip2socks.System.{LwipErr, err_ok}
use ip2socks.Config.{Conf, Host, aton_or}
use ip2socks.Device.{Fate, going, exited}
use ip2socks.Setup.{tun, Calls, Kernel, Netif, unset, tunif_init}
use ip2socks.Setup.Outcomes.{Names}
use ip2socks.Setup.Tun.{
  TunEnded, without_memory, not_opened, not_named, not_positive, not_up, set_up,
  tunif_init-TunEnded,
}
use ip2socks.Start.{
  Files, sigterm, sigint, sigusr2, StartEvent, interface_added, interface_up, udp_listening,
  tcp_listening, signal_watched, device_watched, loop_run, Starting, Stack, on_shell, udp_raw_init,
  tcp_raw_init, add_interface, watch, start,
}
use ip2socks.Start.Shell.{ScriptRun, run_script_iff}

module _ (stack : Stack) (files : Files) (c : Conf) where
  -- What is heard of the stack's two protocols once they are set up.
  abbrev pub udp_log : Bytes → List StartEvent
  udp_log addr =
      let ip = aton_or files.ip4addr_aton (some addr) stack.garbage in
      if stack.new_udp && stack.bind_udp ip then udp_listening ip 53 ∷ [] else []

  abbrev pub tcp_log : List StartEvent
  tcp_log = if stack.new_tcp && stack.bind_tcp then tcp_listening ∷ [] else []

  udp_run :
      (addr : Bytes) (s : Starting)
      → c.addr ≡ some addr
      → udp_raw_init stack files c s ≡ some (tt, record s { log = udp_log addr ++ s.log })
  unfolding udp_raw_init
  udp_run addr s e = ground arith

  tcp_run : (s : Starting) → tcp_raw_init stack s ≡ some (tt, record s { log = tcp_log ++ s.log })
  unfolding tcp_raw_init
  tcp_run s = ground arith

  module _ (k : Kernel) (host : Host) where
    -- The interface before its set-up.
    abbrev pub blank : Netif
    blank = record {
      gw = host.gw;
      netmask = host.netmask;
      name = [];
      output = unset;
      fd = none;
      hwaddr = [];
      link_up = false;
      mtu = 0;
    }

    added :
        (s : Starting) (u : Calls) (e : LwipErr) (n : Netif)
        → c.ip_mode ≡ some (codes "tun")
        → tunif_init k blank s.calls ≡ some (going (e, n), u)
        → add_interface stack k c host s
          ≡ some (going n, record { calls = u; log = interface_added tun e ∷ s.log })
    unfolding add_interface
    added s u e n m r = let b = (bytes_eq_iff (codes "tun") (codes "tun")).1 refl in ground arith

    left :
        (s : Starting) (u : Calls) (code : ℕ)
        → c.ip_mode ≡ some (codes "tun")
        → tunif_init k blank s.calls ≡ some (exited code, u)
        → add_interface stack k c host s ≡ some (exited code, record { calls = u; log = s.log })
    unfolding add_interface
    left s u code m r = let b = (bytes_eq_iff (codes "tun") (codes "tun")).1 refl in ground arith

    -- The log when the interface, the two protocols and the watchers are set up, the last event
    -- first.
    abbrev pub watched : Bytes → ℕ → List StartEvent → List StartEvent
    watched addr fd log =
        device_watched fd
        ∷ signal_watched sigusr2
        ∷ signal_watched sigint
        ∷ signal_watched sigterm
        ∷ (tcp_log ++ (udp_log addr ++ (interface_up ∷ interface_added tun err_ok ∷ log)))

    signals : List StartEvent → List StartEvent
    signals log = signal_watched sigusr2 ∷ signal_watched sigint ∷ signal_watched sigterm ∷ log

    watch_run :
        (n : Netif) (fd : ℕ) (s s' : Starting)
        → n.fd ≡ some fd
        → on_shell c (record s { log = device_watched fd ∷ signals s.log }) ≡ some (tt, s')
        → watch stack k c n s ≡ some (going tt, record s' { log = loop_run ∷ s'.log })
    unfolding watch signals
    watch_run n fd s s' e r = ground arith

    -- The log when `main` has its interface and its two protocols.
    abbrev listening : Bytes → Starting → Starting
    listening addr s = record s { log = tcp_log ++ (udp_log addr ++ (interface_up ∷ s.log)) }

    started_run :
        (addr : Bytes) (n : Netif) (s s' : Starting)
        → stack.has_memory ≡ true
        → c.addr ≡ some addr
        → add_interface stack k c host s ≡ some (going n, s')
        → start stack k files c host s ≡ watch stack k c n (listening addr s')
    unfolding start
    started_run addr n s s' m e r = ground (
      arith,
      udp_run addr (record s' { log = interface_up ∷ s'.log }) e,
      tcp_run (record s' { log = udp_log addr ++ (interface_up ∷ s'.log) }),
    )

    stopped_run :
        (addr : Bytes) (n : Netif) (s s' : Starting)
        → stack.has_memory ≡ false
        → c.addr ≡ some addr
        → add_interface stack k c host s ≡ some (going n, s')
        → start stack k files c host s ≡ some (exited 255, listening addr s')
    unfolding start
    stopped_run addr n s s' m e r = ground (
      arith,
      udp_run addr (record s' { log = interface_up ∷ s'.log }) e,
      tcp_run (record s' { log = udp_log addr ++ (interface_up ∷ s'.log) }),
    )

    exited_run :
        (s s' : Starting) (code : ℕ)
        → add_interface stack k c host s ≡ some (exited code, s')
        → start stack k files c host s ≡ some (exited code, s')
    unfolding start
    exited_run s s' code r = ground arith

    -- The device could not be set up, for one of the reasons that `TunEnded` has for an exit with 1,
    -- and nothing was heard after that.
    abbrev pub Failed : Starting → ℕ → Starting → Type 0
    Failed s code s' =
        (code ≡ 1)
        × (tunif_init k blank s.calls ≡ some (exited 1, s'.calls))
        × TunEnded k blank s.calls (exited 1) s'.calls
        × (s'.log ≡ s.log)

    -- Where `main` can end up: it has exited, because the device could not be set up, or with 255
    -- for want of memory once the device and the protocols are there; or the loop runs.
    abbrev pub Ended : Bytes → Starting → Fate (Unit {0}) → Starting → Type 0
    Ended addr s (exited code) s' =
        Failed s code s'
        ⊎ ((code ≡ 255)
            × (stack.has_memory ≡ false)
            × (s'.log
                ≡ tcp_log ++ (udp_log addr ++ (interface_up ∷ interface_added tun err_ok ∷ s.log))))
    Ended addr s (going tt') s' =
        (fd : ℕ) × (0 < fd)
        × (ready : Starting) × (scripted : Starting) × (ready.log ≡ watched addr fd s.log)
        × ScriptRun c.after_start_shell c ready scripted
        × (s' ≡ record scripted { log = loop_run ∷ scripted.log })

    abbrev Ends : Bytes → Starting → Type 0
    Ends addr s =
        (f : Fate (Unit {0})) × (s' : Starting) × (start stack k files c host s ≡ some (f, s'))
        × Ended addr s f s'

    script_of :
        c.ip_mode ≡ some (codes "tun")
        → (c.after_start_shell ≡ none) ⊎ ((g : Bytes) × (c.gw ≡ some g))
        → (script? : Option Bytes) → c.after_start_shell ≡ script?
        → (s : Starting) → (s' : Starting) × ScriptRun c.after_start_shell c s s'
    script_of mode (inl e) script? q s = (s, inl (e, refl))
    script_of mode (inr (g, e)) none q s = (s, inl (q, refl))
    script_of mode (inr (g, e)) (some script) q s = (_, inr (script, g, q, inl (mode, e), refl))

    looping :
        (addr : Bytes) (fd : ℕ) (n : Netif) (s : Starting) (u : Calls)
        → c.ip_mode ≡ some (codes "tun")
        → c.addr ≡ some addr
        → (c.after_start_shell ≡ none) ⊎ ((g : Bytes) × (c.gw ≡ some g))
        → 0 < fd
        → n.fd ≡ some fd
        → tunif_init k blank s.calls ≡ some (going (err_ok, n), u)
        → stack.has_memory ≡ true
        → Ends addr s
    looping addr fd n s u mode e script pos d r m =
        let s0 : Starting = record { calls = u; log = interface_added tun err_ok ∷ s.log } in
        let s1 = listening addr s0 in
        let s2 : Starting = record { calls = u; log = watched addr fd s.log } in
        let (s3, ran) = script_of mode script c.after_start_shell refl s2 in
        let shell : on_shell c s2 ≡ some (tt, s3) =
          unfold on_shell in (run_script_iff c.after_start_shell c s2 s3).1 ran in
        (
          going tt,
          record s3 { log = loop_run ∷ s3.log },
          started_run addr n s s0 m e (added s u err_ok n mode r)
              ∙ watch_run n fd s1 s3 d (unfold signals in shell),
          (fd, pos, s2, s3, refl, ran, refl),
        )

    failed :
        (addr : Bytes) (s : Starting) (u : Calls)
        → c.ip_mode ≡ some (codes "tun")
        → tunif_init k blank s.calls ≡ some (exited 1, u)
        → TunEnded k blank s.calls (exited 1) u
        → Ends addr s
    failed addr s u mode r how =
        (exited 1, _, exited_run s _ 1 (left s _ 1 mode r), inl (refl, r, how, refl))

    ended :
        (addr : Bytes) (s : Starting) (f : Fate (LwipErr × Netif)) (u : Calls)
        → c.ip_mode ≡ some (codes "tun")
        → c.addr ≡ some addr
        → (c.after_start_shell ≡ none) ⊎ ((g : Bytes) × (c.gw ≡ some g))
        → k.has_memory s.calls ≡ true
        → tunif_init k blank s.calls ≡ some (f, u)
        → TunEnded k blank s.calls f u
        → Ends addr s
    ended addr s f u mode e script m r (without_memory empty) = absurd (cc (m, empty))
    ended addr s f u mode e script m r not_opened = failed addr s _ mode r not_opened
    ended addr s f u mode e script m r (not_named fd) = failed addr s _ mode r (not_named fd)
    ended addr s f u mode e script m r (not_positive fd name z) =
        failed addr s _ mode r (not_positive fd name z)
    ended addr s f u mode e script m r (not_up fd name first pos) =
        failed addr s _ mode r (not_up fd name first pos)
    ended addr s f u mode e script m r (set_up fd name first second flags set pos flagged) =
        elim (Bool-cases stack.has_memory) [
          | inl memory ↦ looping addr fd _ s _ mode e script pos refl r memory
          | inr memory ↦
              let s0 : Starting = record { calls = _; log = interface_added tun err_ok ∷ s.log } in
              (
                exited 255,
                _,
                stopped_run addr _ s s0 memory e (added s _ err_ok _ mode r),
                inr (refl, memory, refl),
              )
        ]

    -- In the mode "tun", with an address in the configuration, a gateway in it if there is a script
    -- to run, memory for the device's state, and interface names shorter than 16 bytes, `main`
    -- behind `parse_config` always ends or enters its loop, without a fault. It exits with 1 only
    -- where `tunif_init` did, because the device did not open, got no name or no positive
    -- descriptor, or its second command could not be run; and with 255 only when there is no memory
    -- for the watcher, once the interface and the two protocols are set up.
    -- Otherwise the loop runs last, after the script, if there is one, and this after: the
    -- interface, put up, the UDP and the TCP listener, each if lwIP had a pcb and could bind it,
    -- the three signals and the device, whose descriptor is positive.
    pub start-Ended :
        (addr : Bytes) (s : Starting)
        → Names k
        → c.ip_mode ≡ some (codes "tun")
        → c.addr ≡ some addr
        → (c.after_start_shell ≡ none) ⊎ ((g : Bytes) × (c.gw ≡ some g))
        → k.has_memory s.calls ≡ true
        → (f : Fate (Unit {0})) × (s' : Starting) × (start stack k files c host s ≡ some (f, s'))
          × Ended addr s f s'
    start-Ended addr s names mode e script m =
        let (f, u, r, how) = tunif_init-TunEnded k blank s.calls names in
        ended addr s f u mode e script m r how
