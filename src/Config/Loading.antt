-- ===== src/Config/Loading.antt =====
-- The rule files that `parse_config` of src/main.cpp loads.
use ip2socks.Common.{
  Bool, false, not, Option, none, some, List, [], ◌∷◌, ◌++◌, ◌==◌, if◌then◌else◌, Bytes, codes,
}
use ip2socks.Util.{Result, ok, err, split}
use ip2socks.Config.{Conf}

-- A text split, where `none` would mean too little fuel, and then what is made of its parts.
abbrev pub and_then {ℓ κ} :
    {A : Type ℓ} {B : Type κ} → Option (Result A) → (A → Option (Result B)) → Option (Result B)
and_then none f = none
and_then (some (err e)) f = some (err e)
and_then (some (ok a)) f = f a

-- Whether a line is neither empty nor a comment.
unfoldable pub is_rule : Bytes → Bool
is_rule [] = false
is_rule (c ∷ s) = not (c == b'#')

unfoldable pub load_line : Bytes → List (List Bytes) → Option (Result (List (List Bytes)))
load_line line domains =
    if is_rule line
    then and_then (split line (codes "/")) (λ v. some (ok (domains ++ v ∷ [])))
    else some (ok domains)

unfoldable pub load_lines : List Bytes → List (List Bytes) → Option (Result (List (List Bytes)))
load_lines [] domains = some (ok domains)
load_lines (line ∷ lines) domains = and_then (load_line line domains) (load_lines lines)

-- `lines_of` gives the lines of a file that can be opened.
module _ (lines_of : Bytes → Option (List Bytes)) where
  unfoldable pub load_file : Bytes → List (List Bytes) → Option (Result (List (List Bytes)))
  load_file [] domains = some (ok domains)
  load_file (c ∷ name) domains = elim (lines_of (c ∷ name)) [
    | none ↦ some (ok domains)
    | some lines ↦ load_lines lines domains
  ]

  unfoldable pub load_files : List Bytes → List (List Bytes) → Option (Result (List (List Bytes)))
  load_files [] domains = some (ok domains)
  load_files (name ∷ names) domains = and_then (load_file name domains) (load_files names)

  unfoldable pub load_rules : Conf → Option (Result Conf)
  load_rules c = elim c.custom_domian_server_file [
    | none ↦ some (ok c)
    | some ffs ↦ and_then (split ffs (codes ";")) (λ files.
        and_then (load_files files []) (λ domains. some (ok (record c { domains = domains }))))
  ]
