-- ===== src/Numbers.antt =====
-- `atoi` and `sprintf("%d")` of the C library, by which src/ passes ports as texts.
use native.Mathlib.Nat.{pow-suc}
use ip2socks.Common.{
  ℕ, zero, suc, ◌+◌, ◌-◌, ◌*◌, ◌/◌, ◌%◌, ◌^◌, ◌<◌, ◌≡◌, Bool, true, false, ◌&&◌, ◌||◌, [], ◌∷◌,
  arith, leb, ◌==◌, if◌then◌else◌, Bytes, ap, ◌≢◌, Bool-cases, inl, inr,
}

abbrev is_digit : ℕ → Bool
is_digit c = leb b'0' c && leb c b'9'

abbrev is_space : ℕ → Bool
is_space c = c == 32 || (leb 9 c && leb c 13)

-- The digits at the start of a text, read behind `n`.
unfoldable pub digits : ℕ → Bytes → ℕ
digits n [] = n
digits n (c ∷ s) = let rest = digits (n * 10 + (c - b'0')) s in if is_digit c then rest else n

signed : Bytes → ℕ
unfolding digits
signed [] = 0
signed (c ∷ s) =
    if c == b'-'
    then (2 ^ 32 - digits 0 s % 2 ^ 32) % 2 ^ 32
    else if c == b'+'
    then digits 0 s % 2 ^ 32
    else digits 0 (c ∷ s) % 2 ^ 32

-- `atoi`, as the 32-bit word of its `int`.
unfoldable pub atoi : Bytes → ℕ
unfolding signed
atoi [] = 0
atoi (c ∷ s) = let rest = atoi s in if is_space c then rest else signed (c ∷ s)

-- `sprintf("%d", n)` of a 16-bit number: five digits at most.
unfoldable pub decimal_on : ℕ → ℕ → Bytes → Bytes
decimal_on zero n out = out
decimal_on (suc fuel) n out =
    let rest = decimal_on fuel (n / 10) ((b'0' + n % 10) ∷ out) in if n == 0 then out else rest

unfoldable pub decimal : ℕ → Bytes
decimal n = if n == 0 then b'0' ∷ [] else decimal_on 5 n []

digit_step : (n : ℕ) (out : Bytes) → digits (n / 10) ((b'0' + n % 10) ∷ out) ≡ digits n out
unfolding digits
digit_step n out = let same : n / 10 * 10 + (b'0' + n % 10 - b'0') ≡ n = omega arith in ground arith

tenth_lt : (fuel n : ℕ) → n < 10 ^ suc fuel → n / 10 < 10 ^ fuel
tenth_lt fuel n h = omega (arith, pow-suc 10 fuel)

digits-decimal_on :
    (fuel n : ℕ) (out : Bytes) → n < 10 ^ fuel → digits 0 (decimal_on fuel n out) ≡ digits n out
unfolding decimal_on
digits-decimal_on zero n out h = ap (λ k. digits k out) (omega arith)
digits-decimal_on (suc fuel) n out h = ground (
  arith,
  digits-decimal_on fuel (n / 10) ((b'0' + n % 10) ∷ out) (tenth_lt fuel n h),
  digit_step n out,
)

abbrev StartsDigit : Bytes → Type 0
StartsDigit [] = ⊥
StartsDigit (c ∷ s) = is_digit c ≡ true

decimal_on-StartsDigit :
    (fuel n : ℕ) (out : Bytes) → StartsDigit out → StartsDigit (decimal_on fuel n out)
unfolding decimal_on
decimal_on-StartsDigit zero n out h = h
decimal_on-StartsDigit (suc fuel) n out h =
    ground (arith, decimal_on-StartsDigit fuel (n / 10) ((b'0' + n % 10) ∷ out))

atoi-digits : (s : Bytes) → StartsDigit s → atoi s ≡ digits 0 s % 2 ^ 32
unfolding atoi
atoi-digits [] h = absurd h
atoi-digits (c ∷ s) h = ground arith

decimal_on_digit : (fuel n : ℕ) → n ≢ 0 → StartsDigit (decimal_on (suc fuel) n [])
unfolding decimal_on
decimal_on_digit fuel n h =
    let d = b'0' + n % 10 in
    let e : (n == 0) ≡ false = ground arith in
    rw e (decimal_on-StartsDigit fuel (n / 10) (d ∷ []) (ground arith))

decimal_on-atoi : (n : ℕ) → n < 65536 → n ≢ 0 → atoi (decimal_on 5 n []) ≡ n
decimal_on-atoi n h ne =
    rw (atoi-digits _ (decimal_on_digit 4 n ne), digits-decimal_on 5 n [] (omega arith))
      (unfold digits in omega arith)

-- A 16-bit number printed and read back.
pub atoi-decimal : (n : ℕ) → n < 65536 → atoi (decimal n) ≡ n
unfolding decimal
atoi-decimal n h = elim (Bool-cases (n == 0)) [
  | inl e ↦ rw e (unfold atoi in ground arith)
  | inr e ↦ rw e (decimal_on-atoi n h (ground arith))
]
