-- ===== src/Start/Shell.antt =====
-- The shell scripts of src/main.cpp.
use ip2socks.Common.{
  ◌≡◌, ◌≢◌, ◌↔◌, ◌⊎◌, inl, inr, refl, ap, sym, ◌∙◌, Option, none, some, ◌∷◌, ◌++◌, Bytes, codes,
  bytes_eq, bytes_eq_iff, arith, Option-cases, Bool-cases,
}
use ip2socks.Device.{Fate, going, exited}
use ip2socks.Config.{Conf}
use ip2socks.Start.{
  SignalKind, sigterm, sigint, sigusr2, shell_run, Starting, shell_line, run_script, down_shell,
  on_signal,
}

-- The address that a script is given: the gateway in the mode "tun", the interface's otherwise.
abbrev pub IsAddress : Conf → Bytes → Type 0
IsAddress c a =
    ((c.ip_mode ≡ some (codes "tun")) × (c.gw ≡ some a))
    ⊎ ((mode : Bytes) × (c.ip_mode ≡ some mode) × (mode ≢ codes "tun") × (c.addr ≡ some a))

abbrev pub command_line : Bytes → Bytes → Bytes
command_line script a = codes "sh " ++ (script ++ (codes " " ++ a))

-- No script, and nothing is run; or the script is run with its address.
abbrev pub ScriptRun : Option Bytes → Conf → Starting → Starting → Type 0
ScriptRun script? c s s' =
    ((script? ≡ none) × (s' ≡ s))
    ⊎ ((script : Bytes) × (a : Bytes) × (script? ≡ some script)
        × IsAddress c a
        × (s' ≡ record s { log = shell_run (command_line script a) ∷ s.log }))

module _ (script : Bytes) (c : Conf) (s : Starting) where
  line-IsAddress :
      (a : Bytes) → IsAddress c a → shell_line script c s ≡ some (command_line script a, s)
  unfolding shell_line
  line-IsAddress a (inl (m, g)) =
      let e = (bytes_eq_iff (codes "tun") (codes "tun")).1 refl in ground arith
  line-IsAddress a (inr (mode, m, other, g)) = elim (Bool-cases (bytes_eq mode (codes "tun"))) [
    | inl e ↦ absurd (other ((bytes_eq_iff mode (codes "tun")).0 e))
    | inr e ↦ ground arith
  ]

  no_mode : c.ip_mode ≡ none → shell_line script c s ≡ none
  unfolding shell_line
  no_mode e = ground arith

  -- The script has an address, or its command line cannot be put together.
  line-cases :
      ((a : Bytes) × IsAddress c a × (shell_line script c s ≡ some (command_line script a, s)))
      ⊎ (shell_line script c s ≡ none)
  line-cases = elim (Option-cases c.ip_mode) [
    | inl e ↦ inr (no_mode e)
    | inr (mode, e) ↦ elim (Bool-cases (bytes_eq mode (codes "tun"))) [
      | inl b ↦ elim (Option-cases c.gw) [
        | inl g ↦ inr (unfold shell_line in ground arith)
        | inr (a, g) ↦
            let at_tun : mode ≡ codes "tun" = (bytes_eq_iff mode (codes "tun")).0 b in
            let is = inl (e ∙ ap some at_tun, g) in inl (a, is, line-IsAddress a is)
      ]
      | inr b ↦ elim (Option-cases c.addr) [
        | inl g ↦ inr (unfold shell_line in ground arith)
        | inr (a, g) ↦
            let is = inr (mode, e, (λ q. cc ((bytes_eq_iff mode (codes "tun")).1 q, b)), g) in
            inl (a, is, line-IsAddress a is)
      ]
    ]
  ]

  script_line :
      (a : Bytes)
      → shell_line script c s ≡ some (command_line script a, s)
      → run_script (some script) c s
        ≡ some (tt, record s { log = shell_run (command_line script a) ∷ s.log })
  unfolding run_script
  script_line a e = ground arith

  script_fault : shell_line script c s ≡ none → run_script (some script) c s ≡ none
  unfolding run_script
  script_fault e = ground arith

script_run :
    (script : Bytes) (c : Conf) (s s' : Starting)
    → run_script (some script) c s ≡ some (tt, s')
    → ScriptRun (some script) c s s'
script_run script c s s' ran = elim (line-cases script c s) [
  | inl (a, is, e) ↦ inr (script, a, refl, is, cc (ran, script_line script c s a e))
  | inr e ↦ absurd (cc (ran, script_fault script c s e))
]

ran_script :
    (script? : Option Bytes) (c : Conf) (s s' : Starting)
    → ScriptRun script? c s s'
    → run_script script? c s ≡ some (tt, s')
unfolding run_script
ran_script none c s s' (inl (e, q)) = cc
ran_script (some script) c s s' (inl (e, q)) = cc
ran_script none c s s' (inr (script, a, e, is, q)) = cc
ran_script (some script) c s s' (inr (script', a, e, is, q)) =
    let same : script ≡ script' = cc in
    rw same
      (script_line script' c s a (line-IsAddress script' c s a is) ∙ ap (λ x. some (tt, x)) (sym q))

-- A script runs without a fault, and leaves a state, exactly as `ScriptRun` says.
pub run_script_iff :
    (script? : Option Bytes) (c : Conf) (s s' : Starting)
    → (run_script script? c s ≡ some (tt, s')) ↔ ScriptRun script? c s s'
run_script_iff none c s s' = (λ ran. inl (refl, unfold run_script in cc), ran_script none c s s')
run_script_iff (some script) c s s' = (script_run script c s s', ran_script (some script) c s s')

ending :
    (c : Conf) (s s' : Starting) (f : Fate (Unit {0}))
    → (on_signal c sigterm s ≡ some (f, s')) ↔ ((f ≡ exited 0) × (down_shell c s ≡ some (tt, s')))
unfolding on_signal
ending c s s' f = (λ e. ground arith, λ (e, d). ground arith)

-- What a signal does: the user signal nothing; the other two run the shutdown script and exit.
abbrev pub Signalled : SignalKind → Conf → Starting → Fate (Unit {0}) → Starting → Type 0
Signalled sigusr2 c s f s' = (f ≡ going tt) × (s' ≡ s)
Signalled _ c s f s' = (f ≡ exited 0) × ScriptRun c.before_shutdown_shell c s s'

ending-Signalled :
    (c : Conf) (s s' : Starting) (f : Fate (Unit {0}))
    → (on_signal c sigterm s ≡ some (f, s')) ↔ Signalled sigterm c s f s'
unfolding down_shell
ending-Signalled c s s' f =
    let (there, back) = ending c s s' f in
    let (run, ran) = run_script_iff c.before_shutdown_shell c s s' in
    (λ e. let (q, d) = there e in (q, run d), λ (q, r). back (q, ran r))

-- The handler of a signal ends without a fault, in a state and with or without an exit, exactly so:
-- SIGUSR2 changes nothing and goes on; SIGTERM and SIGINT exit with 0, after running the shutdown
-- script if there is one, with the gateway as its argument in the mode "tun" and the interface's
-- address in any other, which the configuration must have given.
pub on_signal_iff :
    (sig : SignalKind) (c : Conf) (s s' : Starting) (f : Fate (Unit {0}))
    → (on_signal c sig s ≡ some (f, s')) ↔ Signalled sig c s f s'
unfolding on_signal
on_signal_iff sigterm c s s' f = ending-Signalled c s s' f
on_signal_iff sigint c s s' f = ending-Signalled c s s' f
on_signal_iff sigusr2 c s s' f = (λ e. (cc, cc), λ (e, q). cc)
