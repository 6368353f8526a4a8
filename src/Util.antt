-- ===== src/Util.antt =====
-- src/util.cpp: splitting a configuration line, testing a suffix, and matching a domain against the
-- configured rules. A `std::string` is its list of bytes.
pub mod Split
pub mod Substrings
use ip2socks.Common.{
  ℕ, zero, suc, ◌+◌, ◌-◌, ◌%◌, ◌^◌, ◌≡◌, refl, Bool, true, false, ◌&&◌, ◌||◌, Option, none, some,
  List, [], ◌∷◌, ◌++◌, ltb, leb, ◌==◌, if◌then◌else◌, Bytes, codes, length, take, drop, bytes_eq,
}

-- What `std::vector::at` and `std::string::substr` throw.
pub data Exn : Type 0 where
  out_of_range : Exn

pub data Result {ℓ} (A : Type ℓ) : Type ℓ where
  ok : A → Result A
  err : Exn → Result A

infixl 5 ◌>>=◌
abbrev pub ◌>>=◌ {ℓ κ} : {A : Type ℓ} {B : Type κ} → Result A → (A → Result B) → Result B
ok a >>= f = f a
err e >>= f = err e

-- `std::string::npos`, the largest `size_t`.
abbrev pub npos : ℕ
npos = 2 ^ 64 - 1

-- `a - b` on `size_t`.
abbrev pub sub_size : ℕ → ℕ → ℕ
sub_size a b = (a + 2 ^ 64 - b) % 2 ^ 64

unfoldable pub contains : Bytes → ℕ → Bool
contains [] c = false
contains (d ∷ ds) c = (c == d) || contains ds c

-- The place of the first byte that is one of `delim`.
unfoldable pub first_of : Bytes → Bytes → Option ℕ
unfolding contains
first_of [] delim = none
first_of (c ∷ s) delim = elim (contains delim c) [
  | true ↦ some 0
  | false ↦ elim (first_of s delim) [ none ↦ none | some k ↦ some (suc k) ]
]

-- `s.find_first_of(delim, last)`.
unfoldable pub find_first_of : Bytes → Bytes → ℕ → ℕ
unfolding first_of
find_first_of s delim last = elim (first_of (drop last s) delim) [ none ↦ npos | some k ↦ last + k ]

-- `s.substr(pos, n)`.
unfoldable pub substr : Bytes → ℕ → ℕ → Result Bytes
substr s pos n = if ltb (length s) pos then err out_of_range else ok (take n (drop pos s))

-- What stands after the loop of `split`.
unfoldable pub split_rest : Bytes → ℕ → ℕ → List Bytes → Result (List Bytes)
unfolding substr
split_rest s last index ret =
    if ltb 0 (sub_size index last)
    then (do piece ← substr s last (sub_size index last); ok (ret ++ piece ∷ []))
    else ok ret

-- The `while` loop of `split`; `none` means that the fuel ran out.
unfoldable pub split_loop :
    ℕ → Bytes → Bytes → (last index : ℕ) → List Bytes → Option (Result (List Bytes))
unfolding find_first_of split_rest
split_loop zero s delim last index ret = none
split_loop (suc fuel) s delim last index ret = elim (index == npos) [
  | true ↦ some (split_rest s last index ret)
  | false ↦ elim (substr s last (sub_size index last)) [
    | err e ↦ some (err e)
    | ok piece ↦
        split_loop fuel s delim (index + 1) (find_first_of s delim (index + 1)) (ret ++ piece ∷ [])
  ]
]

-- Each round moves `last` past a delimiter, so one round more than the text has bytes is enough.
unfoldable pub split : Bytes → Bytes → Option (Result (List Bytes))
unfolding split_loop
split s delim = split_loop (length s + 2) s delim 0 (find_first_of s delim 0) []

unfoldable pub end_with : Bytes → Bytes → Bool
end_with str suffix =
    leb (length suffix) (length str)
    && bytes_eq (take (length suffix) (drop (length str - length suffix) str)) suffix

unfoldable pub starts_with : Bytes → Bytes → Bool
starts_with [] s = true
starts_with (p ∷ ps) [] = false
starts_with (p ∷ ps) (c ∷ s) = (p == c) && starts_with ps s

-- `domain.find(pattern, 0) != npos`.
unfoldable pub has_substring : Bytes → Bytes → Bool
unfolding starts_with
has_substring [] pattern' = starts_with pattern' []
has_substring (c ∷ s) pattern' = starts_with pattern' (c ∷ s) || has_substring s pattern'
