-- ===== src/Filter/Meaning.antt =====
-- exclude.c: what it means that a rule matches a name.
use rsync_wrapper.Prelude.{
  ℕ, suc, ◌+◌, ◌-◌, ◌<◌, ◌≤◌, ◌≡◌, refl, ◌∙◌, arith, ltb, leb, ◌==◌, if◌then◌else◌, Bool, true,
  false, not, ◌&&◌, ◌||◌, Bool-cases, inl, inr,
}
use rsync_wrapper.Prelude.{Bytes, List, [], ◌∷◌, ◌++◌, length, Option, none, some, ok}
use rsync_wrapper.Prelude.Int.{ℤ, pos, negsuc}
use rsync_wrapper.Match.Search.{bytes_eq}
use rsync_wrapper.Literal.{doliteral, litmatch_array, trailing_elements, first_text}
use rsync_wrapper.Literal.Laws.{joined, doliteral_lem}
use rsync_wrapper.Wild.{start_text, is_negative}
use rsync_wrapper.Wild.Array.{behind_slash, array_matches, wildmatch_array_lem}
use rsync_wrapper.Filter.{
  Site, FilterRule, NameFlags, behind_first_slash, slash_handling, from_end, is_anchored, name_ends,
  pattern_hits, ret_match, differ, strings_of, matched_name, rule_matches,
}

bytes_eq-length : (a b : Bytes) → bytes_eq a b ≡ true → length a ≡ length b
unfolding bytes_eq
bytes_eq-length [] [] e = refl
bytes_eq-length [] (d ∷ b) e = absurd (ground arith)
bytes_eq-length (c ∷ a) [] e = absurd (ground arith)
bytes_eq-length (c ∷ a) (d ∷ b) e = ground (arith, bytes_eq-length a b)

behind_slash-length :
    (p s : Bytes) → behind_slash (λ t. bytes_eq t p) s ≡ true → length p < length s
unfolding behind_slash
behind_slash-length p [] e = absurd (ground arith)
behind_slash-length p (c ∷ s) e = ground (arith, bytes_eq-length s p, behind_slash-length p s)

-- The pattern is the name, or stands at its end behind a slash.
unfoldable pub is_tail : Bytes → Bytes → Bool
unfolding behind_slash
is_tail name pattern = bytes_eq name pattern || behind_slash (λ s. bytes_eq s pattern) name

-- One character before the name.
name_ends_step :
    (c : ℕ) (s p : Bytes)
    → length p ≤ length s
    → name_ends (c ∷ s) p
      ≡ (if length s == length p then c == 47 && bytes_eq s p else name_ends s p)
unfolding name_ends
name_ends_step c s p h = elim (Bool-cases (length s == length p)) [
  | inl same ↦
      let d : suc (length s) - length p ≡ 1 = ground arith in
      let e : suc (length s) - (length p + 1) ≡ 0 = ground arith in
      let z : length s - length p ≡ 0 = ground arith in rw (d, e, same) ground (arith)
  | inr longer ↦
      let d : suc (length s) - length p ≡ suc (length s - length p) = ground arith in
      let e : suc (length s) - (length p + 1) ≡ suc (length s - (length p + 1)) = ground arith in
      rw (d, e, longer) ground (arith)
]

name_ends_lem : (name pattern : Bytes) → name_ends name pattern ≡ is_tail name pattern
unfolding name_ends is_tail behind_slash bytes_eq
name_ends_lem [] [] = refl
name_ends_lem [] (d ∷ p) = ground arith
name_ends_lem (c ∷ s) p = elim (Bool-cases (leb (length p) (length s))) [
  | inl shorter ↦
      name_ends_step c s p (ground arith)
      ∙ ground (
        arith,
        name_ends_lem s p,
        bytes_eq-length (c ∷ s) p,
        bytes_eq-length s p,
        behind_slash-length p s,
      )
  | inr longer ↦
      ground (arith, bytes_eq-length (c ∷ s) p, bytes_eq-length s p, behind_slash-length p s)
]

-- A rule's pattern, with or without wildcards, on the strings that it is compared with.
unfoldable pub literal_matches : Bytes → Option (Bytes × List Bytes) → Bool
unfolding joined
literal_matches p none = false
literal_matches p (some (text, a)) = bytes_eq p (text ++ joined a)

compared :
    (p : Bytes) (o : Option (Bytes × List Bytes))
    → (elim o [ none ↦ false | some (text, a) ↦ doliteral p text a ]) ≡ literal_matches p o
unfolding literal_matches
compared p none = refl
compared p (some (text, a)) = doliteral_lem p text a

litmatch_array_lem :
    (p : Bytes) (texts : List Bytes) (place : ℤ)
    → litmatch_array p texts (from_end place) ≡ literal_matches p (start_text texts place)
unfolding litmatch_array start_text from_end
litmatch_array_lem p texts (pos n) =
    compared p (if ltb 0 n then trailing_elements texts n else first_text texts)
litmatch_array_lem p texts (negsuc n) = compared p (first_text texts)

unfoldable pub is_hit : FilterRule → List Bytes → Bytes → Bool
unfolding array_matches literal_matches is_tail
is_hit ex strings name =
    let pattern = behind_first_slash ex.pattern in
    let start = start_text strings (slash_handling ex) in
    if ex.rflags.wild
    then array_matches pattern (is_negative (slash_handling ex)) start
    else if ltb 1 (length strings)
    then literal_matches pattern start
    else if is_anchored ex.pattern
    then bytes_eq name pattern
    else is_tail name pattern

-- A rule says nothing of the root and of names of the other kind; one for directories hits nothing else.
unfoldable pub says : Site → Bytes → FilterRule → NameFlags → Bool
unfolding is_hit
says site fname ex name_flags =
    not (length (behind_first_slash fname) == 0)
    && (not (differ name_flags.is_xattr ex.rflags.xattr)
        && differ ex.rflags.negate (
            (name_flags.is_dir || not ex.rflags.directory)
            && is_hit ex (strings_of site fname ex name_flags) (matched_name fname ex)))

pattern_hits_lem :
    (ex : FilterRule) (strings : List Bytes) (name : Bytes)
    → pattern_hits ex strings name ≡ ok (is_hit ex strings name)
unfolding pattern_hits is_hit
pattern_hits_lem ex strings name =
    let pattern = behind_first_slash ex.pattern in
    ground (
      arith,
      wildmatch_array_lem pattern strings (slash_handling ex),
      litmatch_array_lem pattern strings (slash_handling ex),
      name_ends_lem name pattern,
    )

-- `rule_matches` ends on every name and rule. `says` takes its branches as they stand, with the two searches by their
-- plain meaning.
pub rule_matches_lem :
    (site : Site) (fname : Bytes) (ex : FilterRule) (name_flags : NameFlags)
    → rule_matches site fname ex name_flags ≡ ok (says site fname ex name_flags)
unfolding rule_matches says ret_match differ
rule_matches_lem site fname ex name_flags =
    rw
      (
        rule_matches,
        pattern_hits_lem ex (strings_of site fname ex name_flags) (matched_name fname ex),
      )
      ground arith
