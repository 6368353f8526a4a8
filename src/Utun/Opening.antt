-- ===== src/Utun/Opening.antt =====
-- Which units `utun_create` of src/netif/tunif.c tries, and what becomes of their descriptors.
pub mod Loop
use ip2socks.Common.{
  All, ◌≢◌, ℕ, zero, suc, ◌+◌, ◌≤◌, ◌<◌, ◌≡◌, refl, inl, inr, true, false, Option, none, some, List,
  [], ◌∷◌, ◌++◌, Bytes, length, drop, leb, arith, Bool-cases, Option-cases,
}
use ip2socks.System.{Cmd, pure}
use ip2socks.Setup.{
  control_opened, unit_connected, name_asked, info_asked, device_closed, Calls, Kernel,
}
use ip2socks.Utun.{
  Control, copy_name, named_unit, connected_unit, control_unit, utun_create, try_units, tun_create,
}

-- The descriptors of the control sockets that were opened, the last one first, and of those that
-- were closed or would not tell a name.
abbrev pub opens : Calls → List ℕ
opens [] = []
opens (control_opened (some fd) ∷ t) = fd ∷ opens t
opens (e ∷ t) = opens t

abbrev pub settles : Calls → List ℕ
settles [] = []
settles (device_closed fd ∷ t) = fd ∷ settles t
settles (name_asked fd none ∷ t) = fd ∷ settles t
settles (e ∷ t) = settles t

-- How often a control socket was asked for.
abbrev pub attempts : Calls → ℕ
attempts [] = 0
attempts (control_opened fd ∷ t) = suc (attempts t)
attempts (e ∷ t) = attempts t

abbrev pub held : Option (ℕ × Bytes) → List ℕ
held none = []
held (some (fd, name)) = fd ∷ []

-- The name has no NUL in it.
abbrev pub IsText : Bytes → Type 0
IsText name = All (λ b. b ≢ 0) name

-- The interface's names are texts, shorter than the sixteen bytes that they are copied to.
abbrev pub UnitNames : Control → Type 0
UnitNames mac =
    (t : Calls) (fd : ℕ) (name : Bytes)
    → mac.ask_name t fd ≡ some name
    → (length name < 16) × IsText name

-- The array holds the name that the last call gave, of a unit below `bound`, or there is no device.
pub data Made (bound : ℕ) (dev : Bytes) : Option (ℕ × Bytes) → Calls → Type 0 where
  no_unit : (u : Calls) → Made bound dev none u
  unit_made :
      (fd id unit : ℕ) (name : Bytes) (u : Calls)
      → unit < bound
      → length name < 16
      → IsText name
      → Made bound dev
          (some (fd, name ++ drop (length name) dev))
          (name_asked fd (some name) ∷ unit_connected fd id (unit + 1) true ∷ u)

-- From `t`, at most `n` sockets were asked for. Those that were opened are the `gone` ones, in the
-- order in which each was closed or would not tell its name, and behind them the result's.
pub record Accounted (n : ℕ) (t : Calls) (r : Option (ℕ × Bytes)) (t' : Calls) : Type 0 where
  pub gone : List ℕ
  pub opened_all : opens t' ≡ held r ++ (gone ++ opens t)
  pub settled_all : settles t' ≡ gone ++ settles t
  pub bounded : attempts t' ≤ attempts t + n

abbrev pub Tried : ℕ → ℕ → Bytes → Calls → Option (Option (ℕ × Bytes) × Calls) → Type 0
Tried n bound dev t none = ⊥
Tried n bound dev t (some (r, t')) = Accounted n t r t' × Made bound dev r t'

module _ (k : Kernel) (mac : Control) (names : UnitNames mac) (dev : Bytes) where
  named_run :
      (fd : ℕ) (name : Bytes) (u : Calls)
      → length name < 16
      → named_unit k mac fd dev (some name) u ≡ some (some (fd, name ++ drop (length name) dev), u)
  unfolding named_unit copy_name
  named_run fd name u short = ground arith

  module _ (unit : ℕ) (t : Calls) where
    module _ (fd : ℕ) where
      abbrev opened : Calls
      opened = control_opened (some fd) ∷ t

      abbrev informed : ℕ → Calls
      informed id = info_asked fd (some id) ∷ opened

      abbrev joined : ℕ → Calls
      joined id = unit_connected fd id (unit + 1) true ∷ informed id

      named-Tried :
          (id : ℕ) (name : Option Bytes)
          → mac.ask_name (joined id) fd ≡ name
          → Tried 1 (suc unit) dev t (named_unit k mac fd dev name (name_asked fd name ∷ joined id))
      unfolding named_unit
      named-Tried id none e = (
        record { gone = fd ∷ []; opened_all = refl; settled_all = refl; bounded = omega arith },
        no_unit _,
      )
      named-Tried id (some name) e =
          rw (named_run fd name (name_asked fd (some name) ∷ joined id) (names _ _ name e).0, Tried)
            (
              record { gone = []; opened_all = refl; settled_all = refl; bounded = omega arith },
              unit_made fd id unit name _ (omega arith) (names _ _ name e).0 (names _ _ name e).1,
            )

      connected-Tried :
          (id : ℕ) → Tried 1 (suc unit) dev t (connected_unit k mac fd dev id unit (informed id))
      unfolding connected_unit
      connected-Tried id = elim (Bool-cases (mac.connect_unit (informed id) fd id (unit + 1))) [
        | inl e ↦ rw (e, Tried) (named-Tried id _ refl)
        | inr e ↦
            rw (e, Tried)
              (
                record {
                  gone = fd ∷ [];
                  opened_all = refl;
                  settled_all = refl;
                  bounded = omega arith;
                },
                no_unit _,
              )
      ]

      uninformed :
          mac.ask_info opened fd ≡ none
          → control_unit k mac fd dev unit opened
            ≡ some (none, device_closed fd ∷ info_asked fd none ∷ opened)
      unfolding control_unit
      uninformed e = ground arith

      informed_run :
          (id : ℕ)
          → mac.ask_info opened fd ≡ some id
          → control_unit k mac fd dev unit opened
            ≡ connected_unit k mac fd dev id unit (informed id)
      unfolding control_unit
      informed_run id e = ground arith

      control-Tried : Tried 1 (suc unit) dev t (control_unit k mac fd dev unit opened)
      control-Tried = elim (Option-cases (mac.ask_info opened fd)) [
        | inl e ↦
            rw (uninformed e, Tried)
              (
                record {
                  gone = fd ∷ [];
                  opened_all = refl;
                  settled_all = refl;
                  bounded = omega arith;
                },
                no_unit _,
              )
        | inr (id, e) ↦ rw (informed_run id e) (connected-Tried id)
      ]

    too_long :
        leb mac.ctl_name_size (length mac.utun_control_name) ≡ true
        → utun_create k mac dev unit t ≡ some (none, t)
    unfolding utun_create
    too_long e = ground arith

    module _ (fits : leb mac.ctl_name_size (length mac.utun_control_name) ≡ false) where
      refused :
          mac.open_control t ≡ none
          → utun_create k mac dev unit t ≡ some (none, control_opened none ∷ t)
      unfolding utun_create
      refused e = ground arith

      granted :
          (fd : ℕ)
          → mac.open_control t ≡ some fd
          → utun_create k mac dev unit t ≡ control_unit k mac fd dev unit (opened fd)
      unfolding utun_create
      granted fd e = ground arith

      fitting-Tried : Tried 1 (suc unit) dev t (utun_create k mac dev unit t)
      fitting-Tried = elim (Option-cases (mac.open_control t)) [
        | inl e ↦
            rw (refused e, Tried)
              (
                record { gone = []; opened_all = refl; settled_all = refl; bounded = omega arith },
                no_unit _,
              )
        | inr (fd, e) ↦ rw (granted fd e) (control-Tried fd)
      ]

    pub utun_create-Tried : Tried 1 (suc unit) dev t (utun_create k mac dev unit t)
    utun_create-Tried = elim (Bool-cases (leb mac.ctl_name_size (length mac.utun_control_name))) [
      | inl e ↦
          rw (too_long e, Tried)
            (
              record { gone = []; opened_all = refl; settled_all = refl; bounded = omega arith },
              no_unit _,
            )
      | inr e ↦ fitting-Tried e
    ]
