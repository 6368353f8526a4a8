-- ===== src/Config/RuleFiles.antt =====
-- The rules that `parse_config` loads decide about domains as their files state them.
use ip2socks.Common.{
  ◌<◌, ◌≡◌, ◌≢◌, ◌↔◌, refl, ap, sym, ◌∙◌, true, Option, some, List, [], ◌∷◌, ◌++◌, map,
  append_assoc, append-nil, Bytes, length, All,
}
use ip2socks.Util.{ok, npos}
use ip2socks.Util.Split.{Lacks, join, split-join}
use ip2socks.Rules.{Verdict, match_dns_rule}
use ip2socks.Rules.FirstMatch.{
  Rule, server, forward, block, exact, keyword, suffix, row, FirstMatch, match_dns_rule_iff,
}
use ip2socks.Config.Loading.{is_rule, load_line, load_lines, load_file, load_files, load_rules}
use ip2socks.Config.{Conf}

-- A rule as a line of a file: its row joined by slashes.
abbrev pub line : Rule → Bytes
line r = join b'/' (row r)

-- Its texts hold no slash, and the line is shorter than `npos`.
abbrev pub Writable : Rule → Type 0
Writable r = All (Lacks b'/') (row r) × (length (line r) < npos)

line-is_rule : (r : Rule) → is_rule (line r) ≡ true
unfolding is_rule join
line-is_rule (server p dns) = refl
line-is_rule (forward exact p dns) = refl
line-is_rule (forward keyword p dns) = refl
line-is_rule (forward suffix p dns) = refl
line-is_rule (block exact p) = refl
line-is_rule (block keyword p) = refl
line-is_rule (block suffix p) = refl

row-ne-nil : (r : Rule) → row r ≢ []
row-ne-nil (server p dns) = λ e. cc
row-ne-nil (forward k p dns) = λ e. cc
row-ne-nil (block k p) = λ e. cc

load-line :
    (r : Rule) (domains : List (List Bytes))
    → Writable r
    → load_line (line r) domains ≡ some (ok (domains ++ row r ∷ []))
unfolding load_line
load-line r domains (clean, fits) =
    rw (line-is_rule r, split-join (row r) b'/' (row-ne-nil r) clean fits) refl

-- A line of a rule file.
pub data Line : Type 0 where
  rule : Rule → Line
  comment : Bytes → Line
  blank : Line

abbrev pub text : Line → Bytes
text (rule r) = line r
text (comment s) = b'#' ∷ s
text blank = []

abbrev pub rules_of : List Line → List Rule
rules_of [] = []
rules_of (rule r ∷ ls) = r ∷ rules_of ls
rules_of (comment s ∷ ls) = rules_of ls
rules_of (blank ∷ ls) = rules_of ls

load-lines :
    (ls : List Line) (domains : List (List Bytes))
    → All Writable (rules_of ls)
    → load_lines (map text ls) domains ≡ some (ok (domains ++ map row (rules_of ls)))
unfolding load_lines load_line is_rule
load-lines [] domains h = ap (λ x. some (ok x)) (sym (append-nil domains))
load-lines (comment s ∷ ls) domains h = load-lines ls domains h
load-lines (blank ∷ ls) domains h = load-lines ls domains h
load-lines (rule r ∷ ls) domains h = rw (load-line r domains h.0) (
    load-lines ls (domains ++ row r ∷ []) h.1
    ∙ ap (λ x. some (ok x)) (append_assoc domains (row r ∷ []) (map row (rules_of ls))))

-- A rule file, with its name.
abbrev pub RuleFile : Type 0
RuleFile = Bytes × List Line

abbrev pub all_rules : List RuleFile → List Rule
all_rules [] = []
all_rules ((name, ls) ∷ fs) = rules_of ls ++ all_rules fs

abbrev pub names : List RuleFile → List Bytes
names [] = []
names ((name, ls) ∷ fs) = name ∷ names fs

map-append : (rs qs : List Rule) → map row (rs ++ qs) ≡ map row rs ++ map row qs
map-append [] qs = refl
map-append (r ∷ rs) qs = ap (◌∷◌ (row r)) (map-append rs qs)

module _ (lines_of : Bytes → Option (List Bytes)) where
  -- The file has a name without a semicolon, can be opened, and holds rules that can be written.
  abbrev pub Readable : RuleFile → Type 0
  Readable (name, ls) =
      (name ≢ [])
      × Lacks b';' name
      × (lines_of name ≡ some (map text ls))
      × All Writable (rules_of ls)

  load-file :
      (name : Bytes) (ls : List Line) (domains : List (List Bytes))
      → Readable (name, ls)
      → load_file lines_of name domains ≡ some (ok (domains ++ map row (rules_of ls)))
  unfolding load_file
  load-file [] ls domains (named, clean, found, writable) = absurd (named refl)
  load-file (c ∷ name) ls domains (named, clean, found, writable) =
      rw (load_file, found) (load-lines ls domains writable)

  load-files :
      (fs : List RuleFile) (domains : List (List Bytes))
      → All Readable fs
      → load_files lines_of (names fs) domains ≡ some (ok (domains ++ map row (all_rules fs)))
  unfolding load_files
  load-files [] domains h = ap (λ x. some (ok x)) (sym (append-nil domains))
  load-files ((name, ls) ∷ fs) domains h = rw (load-file name ls domains h.0) (
      load-files fs (domains ++ map row (rules_of ls)) h.1
      ∙ ap (λ x. some (ok x))
          (append_assoc domains (map row (rules_of ls)) (map row (all_rules fs))
            ∙ ap (λ x. domains ++ x) (sym (map-append (rules_of ls) (all_rules fs)))))

  names-Lacks : (fs : List RuleFile) → All Readable fs → All (Lacks b';') (names fs)
  names-Lacks [] h = tt
  names-Lacks ((name, ls) ∷ fs) h = (h.0.1, names-Lacks fs h.1)

  load_rules-all_rules :
      (c : Conf) (fs : List RuleFile)
      → fs ≢ []
      → All Readable fs
      → length (join b';' (names fs)) < npos
      → c.custom_domian_server_file ≡ some (join b';' (names fs))
      → load_rules lines_of c ≡ some (ok (record c { domains = map row (all_rules fs) }))
  unfolding load_rules
  load_rules-all_rules c [] ne h fits e = absurd (ne refl)
  load_rules-all_rules c (f ∷ fs) ne h fits e =
      rw
        (
          e,
          split-join (names (f ∷ fs)) b';' (λ x. cc) (names-Lacks (f ∷ fs) h) fits,
          load-files (f ∷ fs) [] h,
        )
        refl

  -- If the configuration names at least one rule file, separated by semicolons in a text shorter
  -- than `npos`, and each can be opened and holds rules, comments and empty lines, where no text of
  -- a rule holds a slash, then the rules are loaded, and `match_dns_rule` over what was loaded
  -- returns a verdict exactly if the first rule of all files that applies to the domain gives it.
  pub load_rules-FirstMatch :
      (c : Conf) (fs : List RuleFile) (domain : Bytes) (v w : Verdict)
      → fs ≢ []
      → All Readable fs
      → length (join b';' (names fs)) < npos
      → c.custom_domian_server_file ≡ some (join b';' (names fs))
      → (c' : Conf) × (load_rules lines_of c ≡ some (ok c'))
        × ((match_dns_rule c'.domains domain v ≡ ok w) ↔ FirstMatch domain v (all_rules fs) w)
  load_rules-FirstMatch c fs domain v w ne h fits e = (
    record c { domains = map row (all_rules fs) },
    load_rules-all_rules c fs ne h fits e,
    match_dns_rule_iff (all_rules fs) domain v w,
  )
