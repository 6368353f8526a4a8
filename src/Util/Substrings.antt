-- ===== src/Util/Substrings.antt =====
-- `end_with` of src/util.cpp and the substring search that its rules use.
use ip2socks.Common.{
  ℕ, ◌-◌, ◌≤◌, ◌≡◌, ◌↔◌, refl, sym, ap, ◌∙◌, true, [], ◌∷◌, ◌++◌, arith, Bytes, length, take, drop,
  bytes_eq, bytes_eq_iff, take-append-drop, take_all, length-append, length-drop, drop-append,
  Bool-cases, inl, inr,
}
use ip2socks.Util.{end_with, starts_with, has_substring}

-- The tail that `end_with` compares is the whole tail.
end_with_tail :
    (str suffix : Bytes)
    → length suffix ≤ length str
    → end_with str suffix ≡ bytes_eq (drop (length str - length suffix) str) suffix
unfolding end_with
end_with_tail str suffix le = ground (
  arith,
  take_all (length suffix) (drop (length str - length suffix) str),
  length-drop (length str - length suffix) str,
)

end_with-append : (before suffix : Bytes) → end_with (before ++ suffix) suffix ≡ true
end_with-append before suffix =
    let n : length (before ++ suffix) - length suffix ≡ length before =
      omega (arith, length-append before suffix) in
    rw
      (
        end_with_tail (before ++ suffix) suffix (omega (arith, length-append before suffix)),
        n,
        drop-append before suffix,
      )
      ((bytes_eq_iff suffix suffix).1 refl)

end_with_le : (str suffix : Bytes) → end_with str suffix ≡ true → length suffix ≤ length str
unfolding end_with
end_with_le str suffix h = ground arith

-- `end_with` holds exactly when the text is some bytes followed by the suffix.
pub end_with_iff :
    (str suffix : Bytes)
    → (end_with str suffix ≡ true) ↔ ((before : Bytes) × (str ≡ before ++ suffix))
end_with_iff str suffix = (
  λ h.
      let n = length str - length suffix in
      let le = end_with_le str suffix h in
      let tail : drop n str ≡ suffix =
        (bytes_eq_iff _ _).0 (sym (end_with_tail str suffix le) ∙ h) in
      (take n str, sym (take-append-drop n str) ∙ ap (◌++◌ (take n str)) tail),
  λ (before, e). rw e (end_with-append before suffix),
)

starts_with_iff : (p s : Bytes) → (starts_with p s ≡ true) ↔ ((after : Bytes) × (s ≡ p ++ after))
unfolding starts_with
starts_with_iff [] s = (λ _. (s, refl), λ _. refl)
starts_with_iff (x ∷ p) [] = (λ e. cc, λ (after, e). cc)
starts_with_iff (x ∷ p) (c ∷ s) = (
  λ h. let (after, e) = (starts_with_iff p s).0 (ground arith) in (after, ground arith),
  λ (after, e). ground (arith, (starts_with_iff p s).1 (after, ground arith)),
)

substring_at_start : (s p : Bytes) → starts_with p s ≡ true → has_substring s p ≡ true
unfolding has_substring
substring_at_start [] p h = h
substring_at_start (c ∷ s) p h = ground arith

substring_cons : (c : ℕ) (s p : Bytes) → has_substring s p ≡ true → has_substring (c ∷ s) p ≡ true
unfolding has_substring
substring_cons c s p h = ground arith

has_substring-append : (before p after : Bytes) → has_substring (before ++ (p ++ after)) p ≡ true
has_substring-append [] p after =
    substring_at_start (p ++ after) p ((starts_with_iff p _).1 (after, refl))
has_substring-append (c ∷ before) p after =
    substring_cons c _ p (has_substring-append before p after)

substring_split :
    (s p : Bytes)
    → has_substring s p ≡ true
    → (before : Bytes) × (after : Bytes) × (s ≡ before ++ (p ++ after))
unfolding has_substring
substring_split [] p h = let (after, e) = (starts_with_iff p []).0 h in ([], after, e)
substring_split (c ∷ s) p h = elim (Bool-cases (starts_with p (c ∷ s))) [
  | inl e ↦ let (after, e') = (starts_with_iff p (c ∷ s)).0 e in ([], after, e')
  | inr e ↦
      let (before, after, e') = substring_split s p (ground arith) in
      (c ∷ before, after, ap (◌∷◌ c) e')
]

-- The search finds a pattern exactly when the text has it somewhere.
pub has_substring_iff :
    (s pattern' : Bytes)
    → (has_substring s pattern' ≡ true)
      ↔ ((before : Bytes) × (after : Bytes) × (s ≡ before ++ (pattern' ++ after)))
has_substring_iff s p =
    (substring_split s p, λ (before, after, e). rw e (has_substring-append before p after))
