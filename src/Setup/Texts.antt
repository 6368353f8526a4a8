-- ===== src/Setup/Texts.antt =====
-- The addresses and commands that the set-up of the devices prints.
use ip2socks.Common.{
  ℕ, zero, suc, ◌+◌, ◌/◌, ◌%◌, ◌≤◌, ◌<◌, ◌≡◌, refl, some, List, [], ◌∷◌, ◌++◌, map, Bytes, codes,
  length, take_all, length-append, arith, ◌==◌, Bool-cases, inl, inr,
}
use ip2socks.Numbers.{decimal, decimal_on, atoi, atoi-decimal}
use ip2socks.System.{Ip4, ip_bytes}
use ip2socks.Util.{ok, split}
use ip2socks.Util.Split.{Lacks, join, split-join}
use ip2socks.Setup.{dotted, addr_command, up_command, ifconfig_command, cut}

-- Four bytes.
pub record IsIp4 (ip : Ip4) : Type 0 where
  pub a_small : ip.a < 256
  pub b_small : ip.b < 256
  pub c_small : ip.c < 256
  pub d_small : ip.d < 256

decimal_on-Lacks : (fuel n : ℕ) (out : Bytes) → Lacks b'.' out → Lacks b'.' (decimal_on fuel n out)
unfolding decimal_on
decimal_on-Lacks zero n out h = h
decimal_on-Lacks (suc fuel) n out h = elim (Bool-cases (n == 0)) [
  | inl e ↦ rw e h
  | inr e ↦ rw e (decimal_on-Lacks fuel (n / 10) ((b'0' + n % 10) ∷ out) (omega arith, h))
]

decimal-Lacks : (n : ℕ) → Lacks b'.' (decimal n)
unfolding decimal
decimal-Lacks n = elim (Bool-cases (n == 0)) [
  | inl e ↦ rw e (omega arith, tt)
  | inr e ↦ rw e (decimal_on-Lacks 5 n [] tt)
]

length-decimal_on : (fuel n : ℕ) (out : Bytes) → length (decimal_on fuel n out) ≤ fuel + length out
unfolding decimal_on
length-decimal_on zero n out = omega arith
length-decimal_on (suc fuel) n out =
    ground (arith, length-decimal_on fuel (n / 10) ((b'0' + n % 10) ∷ out))

pub length-decimal : (n : ℕ) → length (decimal n) ≤ 5
unfolding decimal
length-decimal n = ground (arith, length-decimal_on 5 n [])

pub length-dotted : (ip : Ip4) → length (dotted ip) ≤ 23
unfolding dotted
length-dotted ip =
    let c = length-append (46 ∷ decimal ip.c) (46 ∷ decimal ip.d) in
    let b = length-append (46 ∷ decimal ip.b) ((46 ∷ decimal ip.c) ++ (46 ∷ decimal ip.d)) in
    omega (
      arith,
      c,
      b,
      length-append (decimal ip.a)
          ((46 ∷ decimal ip.b) ++ ((46 ∷ decimal ip.c) ++ (46 ∷ decimal ip.d))),
      length-decimal ip.a,
      length-decimal ip.b,
      length-decimal ip.c,
      length-decimal ip.d,
    )

-- The four numbers of an address, as they are printed.
abbrev pub octets : Ip4 → List Bytes
octets ip = map decimal (ip_bytes ip)

join-octets : (ip : Ip4) → join b'.' (octets ip) ≡ dotted ip
unfolding join dotted
join-octets ip = refl

atoi-octets : (ip : Ip4) → IsIp4 ip → map atoi (octets ip) ≡ ip_bytes ip
atoi-octets ip h =
    rw
      (
        atoi-decimal ip.a (omega (arith, h.a_small)),
        atoi-decimal ip.b (omega (arith, h.b_small)),
        atoi-decimal ip.c (omega (arith, h.c_small)),
        atoi-decimal ip.d (omega (arith, h.d_small)),
      )
      refl

-- An address of four bytes, printed with dots, is split at the dots into texts that are read back
-- as its bytes.
pub split-dotted :
    (ip : Ip4)
    → IsIp4 ip
    → (ps : List Bytes) × (split (dotted ip) (codes ".") ≡ some (ok ps))
      × (map atoi ps ≡ ip_bytes ip)
split-dotted ip h = (
  octets ip,
  rw (← join-octets ip) (
      split-join (octets ip) b'.' (λ e. cc)
        (decimal-Lacks ip.a, (decimal-Lacks ip.b, (decimal-Lacks ip.c, (decimal-Lacks ip.d, tt))))
        (rw (join-octets ip) (omega (arith, length-dotted ip)))),
  atoi-octets ip h,
)

-- The commands with a name shorter than 16 bytes fit their buffer of 1024 bytes.
pub cut-addr_command :
    (gw : Ip4) (name : Bytes) → length name < 16 → cut (addr_command gw name) ≡ addr_command gw name
unfolding addr_command
cut-addr_command gw name h = take_all 1023 _ (omega (arith, length-append {0}, length-dotted gw))

pub cut-up_command : (name : Bytes) → length name < 16 → cut (up_command name) ≡ up_command name
unfolding up_command
cut-up_command name h = take_all 1023 _ (omega (arith, length-append {0}))

pub cut-ifconfig_command :
    (name : Bytes) (gw netmask : Ip4)
    → length name < 16
    → cut (ifconfig_command name gw netmask) ≡ ifconfig_command name gw netmask
unfolding ifconfig_command
cut-ifconfig_command name gw netmask h =
    take_all 1023 _ (omega (arith, length-append {0}, length-dotted gw, length-dotted netmask))
