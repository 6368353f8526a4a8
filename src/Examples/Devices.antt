-- ===== src/Examples/Devices.antt =====
-- src/netif/tunif.c and src/netif/tapif.c on concrete packets and kernels.
use ip2socks.Common.{
  ◌≤◌, false, refl, arith, ℕ, ◌==◌, ◌++◌, Bytes, codes, drop, Option, ◌≡◌, ◌↔◌, true, none, some,
  [], ◌∷◌,
}
use ip2socks.System.{LwipErr, err_ok, err_mem}
use ip2socks.Device.{Fate, PacketTrace, Device, packet_read, packet_written, give_packet}
use ip2socks.Setup.{Calls, Kernel, Netif, unset}
use ip2socks.Utun
use ip2socks.Utun.{Control, tun_create, tun_name, text_of, copy_name}
use ip2socks.Utun.Opening.{IsText, UnitNames, Accounted, Made}
use ip2socks.Utun.Opening.Loop.{tun_create-Accounted}
use ip2socks.Utun.Packets.{framed, tunif_input-tunif_output}
use ip2socks.Utun.Ending.{UtunEnded, tunif_init-UtunEnded}
use ip2socks.Utun.Naming.{copy_name-text_iff}
use ip2socks.Tun.{tunif_input, tunif_output}
use ip2socks.Tap.{tapif_input}
use ip2socks.Tap.Frames.{Taken, tapif_input-Taken}
use ip2socks.Tun.Packets.{Kept, tunif_input-Kept, tunif_output-whole_iff}

-- A stack that refuses every packet.
abbrev full_stack : Device
full_stack = record {
  read = λ t. some (69 ∷ 0 ∷ []);
  write = λ t bs. true;
  alloc = λ t n. true;
  input = λ t bs. err_mem;
}

tunif_input-Kept_example :
    (t : PacketTrace) × (tunif_input full_stack [] ≡ some (tt, t)) × Kept full_stack [] t
tunif_input-Kept_example = tunif_input-Kept full_stack []

tunif_output-whole_iff_example :
    (tunif_output full_stack (λ i. i) (69 ∷ []) []
      ≡ some (err_ok, packet_written (69 ∷ []) true ∷ []))
    ↔ (1 ≤ 1500)
tunif_output-whole_iff_example = tunif_output-whole_iff full_stack [] (λ i. i) (69 ∷ [])

tapif_input-Taken_example :
    (f : Fate (Unit {0})) × (u : PacketTrace) × (tapif_input full_stack [] ≡ some (f, u))
    × Taken full_stack [] f u
tapif_input-Taken_example = tapif_input-Taken full_stack []

-- A kernel of macOS that has the third unit.
abbrev control : Control
control = record {
  open_control = λ t. some 5;
  ask_info = λ t fd. some 1;
  connect_unit = λ t fd id unit. unit == 3;
  ask_name = λ t fd. some (codes "utun2");
  utun_control_name = codes "com.apple.net.utun_control";
  ctl_name_size = 96;
  on_stack = λ i. i;
}

abbrev kernel : Kernel
kernel = record {
  open_device = λ t. none;
  set_interface = λ t fd kind. none;
  system = λ t s. some 0;
  get_flags = λ t fd. some 2;
  set_flags = λ t fd flags. true;
  has_memory = λ t. true;
}

utun2-IsText : IsText (codes "utun2")
utun2-IsText = ground arith

control-UnitNames : UnitNames control
control-UnitNames t fd name e =
    let same : name ≡ codes "utun2" = cc in rw same (omega arith, utun2-IsText)

tun_create-Accounted_example :
    (d : Option (ℕ × Bytes)) × (t : Calls) × (tun_create kernel control
        (tun_name control.on_stack)
        []
      ≡ some (d, t))
    × Accounted 256 [] d t
    × Made 256 (tun_name control.on_stack) d t
tun_create-Accounted_example =
    tun_create-Accounted kernel control control-UnitNames (tun_name control.on_stack) []

-- A stack that takes every packet, on a device with one packet of IPv4 behind its family.
abbrev utun_stack : Device
utun_stack = record {
  read = λ t. some (framed 69 (1 ∷ []));
  write = λ t bs. true;
  alloc = λ t n. true;
  input = λ t bs. err_ok;
}

tunif_input-tunif_output_example :
    (Utun.tunif_output utun_stack 0 (69 ∷ 1 ∷ []) []
      ≡ some (err_ok, packet_written (framed 69 (1 ∷ [])) true ∷ []))
    × (Utun.tunif_input utun_stack []
        ≡ give_packet utun_stack (69 ∷ 1 ∷ []) (packet_read (some (framed 69 (1 ∷ []))) ∷ []))
tunif_input-tunif_output_example =
    tunif_input-tunif_output utun_stack utun_stack 0 69 (1 ∷ []) [] [] (omega arith) refl refl

copy_name-text_iff_example :
    (text_of (codes "utun2" ++ drop 5 (tun_name control.on_stack)) ≡ some (codes "utun2"))
    ↔ (control.on_stack 5 ≡ 0)
unfolding copy_name
copy_name-text_iff_example =
    copy_name-text_iff control.on_stack (codes "utun2")
      (codes "utun2" ++ drop 5 (tun_name control.on_stack)) utun2-IsText (omega arith) (omega arith)
      refl

abbrev zeroed : Control
zeroed = record control { on_stack = λ i. 0 }

abbrev netif : Netif
netif = record {
  gw = record { a = 10; b = 0; c = 0; d = 1 };
  netmask = record { a = 255; b = 255; c = 255; d = 0 };
  name = [];
  output = unset;
  fd = none;
  hwaddr = [];
  link_up = false;
  mtu = 0;
}

tunif_init-UtunEnded_example :
    (f : Fate (LwipErr × Netif)) × (u : Calls) × (Utun.tunif_init kernel zeroed netif []
      ≡ some (f, u))
    × UtunEnded kernel zeroed netif [] f u
tunif_init-UtunEnded_example =
    tunif_init-UtunEnded kernel zeroed netif [] control-UnitNames λ i. refl
