-- ===== src/Utun/Naming.antt =====
-- The name of a `utun` device, which src/netif/tunif.c copies without its NUL.
use ip2socks.Common.{
  ℕ, zero, suc, ◌+◌, ◌<◌, ◌≡◌, ◌≢◌, ◌↔◌, ◌∙◌, refl, ap, some, [], ◌∷◌, ◌++◌, Bytes, length, drop,
  arith,
}
use ip2socks.System.{memory}
use ip2socks.Utun.Opening.{IsText}
use ip2socks.Utun.{copy_name, text_of, tun_name}

pub drop-memory :
    (m : ℕ → ℕ) (n k i j : ℕ)
    → n < k
    → j ≡ n + i
    → (rest : Bytes) × (drop n (memory m k i) ≡ m j ∷ rest)
drop-memory m zero zero i j h e = elim h [ ]
drop-memory m zero (suc k) i j h e =
    let same : i ≡ j = omega arith in (memory m k (suc i), ap (λ x. m x ∷ memory m k (suc i)) same)
drop-memory m (suc n) zero i j h e = elim h [ ]
drop-memory m (suc n) (suc k) i j h e = drop-memory m n k (suc i) j (omega arith) (omega arith)

pub text_of-text :
    (name : Bytes) (rest : Bytes) → IsText name → (text_of (name ++ 0 ∷ rest) ≡ some name)
unfolding text_of
text_of-text [] rest h = refl
text_of-text (b ∷ bs) rest h = ground (arith, text_of-text bs rest h.1, h.0)

-- A text that is read past a byte which is no NUL is longer.
text_of-longer :
    (name : Bytes) (x : ℕ) (rest : Bytes)
    → IsText name
    → x ≢ 0
    → text_of (name ++ x ∷ rest) ≢ some name
unfolding text_of
text_of-longer [] x rest h n e = ground (arith, n)
text_of-longer (b ∷ bs) x rest h n e =
    let longer = text_of-longer bs x rest h.1 n in ground (arith, h.0, longer)

text_of-copied :
    (name : Bytes) (x : ℕ) (rest : Bytes)
    → IsText name
    → (text_of (name ++ x ∷ rest) ≡ some name) ↔ (x ≡ 0)
text_of-copied name zero rest h = ((λ e. refl), (λ e. text_of-text name rest h))
text_of-copied name (suc x) rest h = (
  (λ e. absurd (text_of-longer name (suc x) rest h (λ z. omega arith) e)),
  (λ z. absurd (nonzero x z)),
)
  where
    nonzero : (x : ℕ) → suc x ≢ 0
    nonzero x z = omega arith

copied :
    (name dev dev' : Bytes)
    → length name < 16
    → copy_name name dev ≡ some dev'
    → dev' ≡ name ++ drop (length name) dev
unfolding copy_name
copied name dev dev' short e = ground arith

-- On macOS, a name of one to fifteen bytes is read back from `tun_name` as it was given exactly if
-- the byte of the stack behind it, which nothing has written, is NUL.
pub copy_name-text_iff :
    (on_stack : ℕ → ℕ) (name dev' : Bytes)
    → IsText name
    → 0 < length name
    → length name < 16
    → copy_name name (tun_name on_stack) ≡ some dev'
    → (text_of dev' ≡ some name) ↔ (on_stack (length name) ≡ 0)
copy_name-text_iff on_stack [] dev' h full short e = elim full [ ]
copy_name-text_iff on_stack (b ∷ bs) dev' h full short e =
    let (rest, tail) =
      drop-memory on_stack (length bs) 15 1 (length (b ∷ bs)) (omega arith) (omega arith) in
    let whole : dev' ≡ (b ∷ bs) ++ (on_stack (length (b ∷ bs)) ∷ rest) =
      copied (b ∷ bs) (tun_name on_stack) dev' short e ∙ ap (λ x. (b ∷ bs) ++ x) tail in
    rw whole (text_of-copied (b ∷ bs) (on_stack (length (b ∷ bs))) rest h)
