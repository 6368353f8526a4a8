-- ===== src/Common/Cancel.antt =====
-- Cancelling what two byte strings begin with.
use mathlib.Core.Path.{◌≡◌}
use mathlib.Core.List.{List, [], ◌∷◌, ◌++◌}

module _ {ℓ} {A : Type ℓ} where
  tail_of : (x y : A) (xs ys : List A) → x ∷ xs ≡ y ∷ ys → xs ≡ ys
  tail_of x y xs ys e = cc

  pub append_cancel : (xs : List A) {ys zs : List A} → xs ++ ys ≡ xs ++ zs → ys ≡ zs
  append_cancel [] e = e
  append_cancel (x ∷ xs) {ys = ys} {zs = zs} e =
      append_cancel xs (tail_of x x (xs ++ ys) (xs ++ zs) e)
