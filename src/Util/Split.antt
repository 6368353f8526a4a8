-- ===== src/Util/Split.antt =====
-- `split` of src/util.cpp: what its index loop computes, and that it ends without an exception.
use ip2socks.Common.{
  ℕ, zero, suc, ◌+◌, ◌-◌, ◌≤◌, ◌<◌, ◌≡◌, ◌≢◌, refl, ap, ◌∙◌, none, some, List, [], ◌∷◌, ◌++◌,
  append_assoc, arith, ◌==◌, if◌then◌else◌, Bytes, length, take, drop, length-drop, drop-drop,
  take_all, All, Bool-cases, Option-cases, inl, inr,
}
use ip2socks.Util.{
  ok, npos, sub_size, contains, first_of, find_first_of, substr, split_rest, split_loop, split,
}

cons_head : ℕ → List Bytes → List Bytes
cons_head c [] = (c ∷ []) ∷ []
cons_head c (p ∷ ps) = (c ∷ p) ∷ ps

-- The parts between the delimiters, by recursion on the text: the specification of `split`.
pub pieces : Bytes → Bytes → List Bytes
pieces delim [] = [] ∷ []
pieces delim (c ∷ s) =
    if contains delim c then [] ∷ pieces delim s else cons_head c (pieces delim s)

first_of-none : (s delim : Bytes) → first_of s delim ≡ none → pieces delim s ≡ s ∷ []
unfolding first_of pieces cons_head
first_of-none [] delim e = refl
first_of-none (c ∷ s) delim e = ground (arith, first_of-none s delim)

first_of-some :
    (s delim : Bytes) (k : ℕ)
    → first_of s delim ≡ some k
    → (k < length s) × (pieces delim s ≡ take k s ∷ pieces delim (drop (suc k) s))
unfolding first_of pieces cons_head
first_of-some [] delim k e = cc
first_of-some (c ∷ s) delim zero e = ground (arith, first_of-some s delim)
first_of-some (c ∷ s) delim (suc k) e = ground (arith, first_of-some s delim k)

module _ (s delim : Bytes) (fits : length s < npos) where
  find-none : (last : ℕ) → first_of (drop last s) delim ≡ none → find_first_of s delim last ≡ npos
  unfolding find_first_of
  find-none last e = rw (e, find_first_of)

  find-some :
      (last k : ℕ) → first_of (drop last s) delim ≡ some k → find_first_of s delim last ≡ last + k
  unfolding find_first_of
  find-some last k e = rw (e, find_first_of)

  substr-take : (last n : ℕ) → last ≤ length s → substr s last n ≡ ok (take n (drop last s))
  unfolding substr
  substr-take last n le = ground arith

  loop_last :
      (fuel last : ℕ) (ret : List Bytes)
      → last ≤ length s
      → split_loop (suc fuel) s delim last npos ret ≡ some (ok (ret ++ drop last s ∷ []))
  unfolding split_loop split_rest
  loop_last fuel last ret le = ground (
    arith,
    substr-take last (sub_size npos last),
    take_all (sub_size npos last) (drop last s),
    length-drop last s,
  )

  loop_next :
      (fuel last k : ℕ) (ret : List Bytes)
      → last + k < length s
      → split_loop (suc fuel) s delim last (last + k) ret
        ≡ split_loop fuel s delim
            (last + k + 1)
            (find_first_of s delim (last + k + 1))
            (ret ++ take k (drop last s) ∷ [])
  unfolding split_loop
  loop_next fuel last k ret lt = ground (arith, substr-take last (sub_size (last + k) last))

  -- The loop from `last`, given the search from there.
  split_loop-pieces :
      (fuel last : ℕ) (ret : List Bytes)
      → last ≤ length s
      → length s - last < fuel
      → split_loop fuel s delim last (find_first_of s delim last) ret
        ≡ some (ok (ret ++ pieces delim (drop last s)))
  split_loop-pieces zero last ret le enough = elim enough [ ]
  split_loop-pieces (suc fuel) last ret le enough =
      elim (Option-cases (first_of (drop last s) delim)) [
        | inl e ↦ rw (find-none last e, first_of-none _ delim e) (loop_last fuel last ret le)
        | inr (k, e) ↦
            let (lt, split_at) = first_of-some (drop last s) delim k e in
            let inside : last + k < length s = omega (arith, length-drop last s) in
            let here : last + k + 1 ≡ last + suc k = omega arith in
            rw (find-some last k e, split_at, loop_next fuel last k ret inside)
              (split_loop-pieces fuel (last + k + 1) _ (omega arith) (omega arith)
                ∙ rw (append_assoc, drop-drop (suc k) last s, here))
      ]

-- `split` ends without an exception, and its result is the specification's.
pub split-pieces : (s delim : Bytes) → length s < npos → split s delim ≡ some (ok (pieces delim s))
unfolding split
split-pieces s delim fits =
    split_loop-pieces s delim fits (length s + 2) 0 [] (omega arith) (omega arith)

-- The parts of a text, put together again with `d` between them.
unfoldable pub join : ℕ → List Bytes → Bytes
join d [] = []
join d (p ∷ []) = p
join d (p ∷ q ∷ ps) = p ++ d ∷ join d (q ∷ ps)

abbrev pub Lacks : ℕ → Bytes → Type 0
Lacks d = All (λ c. c ≢ d)

join-cons_head : (d c : ℕ) (ps : List Bytes) → join d (cons_head c ps) ≡ c ∷ join d ps
unfolding join cons_head
join-cons_head d c [] = refl
join-cons_head d c (p ∷ []) = refl
join-cons_head d c (p ∷ q ∷ ps) = refl

cons_head-ne-nil : (c : ℕ) (ps : List Bytes) → cons_head c ps ≢ []
unfolding cons_head
cons_head-ne-nil c [] = λ e. cc
cons_head-ne-nil c (p ∷ ps) = λ e. cc

pieces-ne-nil : (d s : Bytes) → pieces d s ≢ []
unfolding pieces
pieces-ne-nil d [] = λ e. cc
pieces-ne-nil d (c ∷ s) = ground (arith, cons_head-ne-nil c (pieces d s))

join_nil_cons : (d : ℕ) (ps : List Bytes) → ps ≢ [] → join d ([] ∷ ps) ≡ d ∷ join d ps
unfolding join
join_nil_cons d [] h = absurd (h refl)
join_nil_cons d (p ∷ ps) h = refl

join-pieces : (d : ℕ) (s : Bytes) → join d (pieces (d ∷ []) s) ≡ s
unfolding pieces contains
join-pieces d [] = unfold join in refl
join-pieces d (c ∷ s) = ground (
  arith,
  join-pieces d s,
  join-cons_head d c (pieces (d ∷ []) s),
  join_nil_cons d (pieces (d ∷ []) s),
  pieces-ne-nil (d ∷ []) s,
)

Lacks-cons_head :
    (d c : ℕ) (ps : List Bytes) → c ≢ d → All (Lacks d) ps → All (Lacks d) (cons_head c ps)
unfolding cons_head
Lacks-cons_head d c [] h hs = ((h, tt), tt)
Lacks-cons_head d c (p ∷ ps) h hs = ((h, hs.0), hs.1)

Lacks-pieces : (d : ℕ) (s : Bytes) → All (Lacks d) (pieces (d ∷ []) s)
unfolding pieces contains
Lacks-pieces d [] = (tt, tt)
Lacks-pieces d (c ∷ s) = elim (Bool-cases (c == d)) [
  | inl e ↦ rw e (tt, Lacks-pieces d s)
  | inr e ↦ rw e (Lacks-cons_head d c (pieces (d ∷ []) s) (ground arith) (Lacks-pieces d s))
]

pieces_lone : (d : ℕ) (p : Bytes) → Lacks d p → pieces (d ∷ []) p ≡ p ∷ []
unfolding pieces contains cons_head
pieces_lone d [] h = refl
pieces_lone d (c ∷ p) h = ground (arith, pieces_lone d p h.1)

pieces-append :
    (d : ℕ) (p rest : Bytes)
    → Lacks d p
    → pieces (d ∷ []) (p ++ d ∷ rest) ≡ p ∷ pieces (d ∷ []) rest
unfolding pieces contains cons_head
pieces-append d [] rest h = ground arith
pieces-append d (c ∷ p) rest h = ground (arith, pieces-append d p rest h.1)

pub pieces-join :
    (d : ℕ) (ps : List Bytes) → ps ≢ [] → All (Lacks d) ps → pieces (d ∷ []) (join d ps) ≡ ps
unfolding join
pieces-join d [] ne h = absurd (ne refl)
pieces-join d (p ∷ []) ne h = pieces_lone d p h.0
pieces-join d (p ∷ q ∷ ps) ne h =
    rw (pieces-append d p _ h.0) (ap (◌∷◌ p) (pieces-join d (q ∷ ps) (λ e. cc) h.1))

-- For one delimiter `d`, `split` ends without an exception on every text shorter than `npos`; no
-- part it returns holds `d`, and the parts joined by `d` are the text.
pub join-split :
    (s : Bytes) (d : ℕ)
    → length s < npos
    → (ps : List Bytes) × (split s (d ∷ []) ≡ some (ok ps)) × All (Lacks d) ps × (join d ps ≡ s)
join-split s d fits =
    (pieces (d ∷ []) s, split-pieces s (d ∷ []) fits, Lacks-pieces d s, join-pieces d s)

-- A text made of parts that do not hold the delimiter `d`, at least one, is split into these parts.
pub split-join :
    (ps : List Bytes) (d : ℕ)
    → ps ≢ []
    → All (Lacks d) ps
    → length (join d ps) < npos
    → split (join d ps) (d ∷ []) ≡ some (ok ps)
split-join ps d ne clean fits =
    split-pieces (join d ps) (d ∷ []) fits ∙ ap (λ qs. some (ok qs)) (pieces-join d ps ne clean)
