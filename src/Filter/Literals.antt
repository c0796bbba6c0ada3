-- ===== src/Filter/Literals.antt =====
-- exclude.c: a rule that `add_rule` makes of a pattern without wildcards.
use rsync_wrapper.Prelude.{
  ℕ, zero, suc, ◌-◌, ◌≡◌, ◌≢◌, refl, ap, ◌∙◌, arith, ◌==◌, if◌then◌else◌, Bool, true, false, not,
  ◌&&◌, ◌||◌, Bool-cases, inl, inr, append-nil, Option-cases,
}
use rsync_wrapper.Prelude.{Bytes, List, [], ◌∷◌, length, take, drop, none, some, ok}
use rsync_wrapper.Match.Search.{bytes_eq}
use rsync_wrapper.Wild.Array.{behind_slash}
use rsync_wrapper.Filter.{
  Site, FilterRule, Flags, NameFlags, behind_first_slash, last_slash, base_name, is_anchored,
  differ, front_strings, strings_of, matched_name, rule_matches,
}
use rsync_wrapper.Filter.Parse.{XFlags}
use rsync_wrapper.Filter.Meaning.{is_tail, is_hit, says, rule_matches_lem}
use rsync_wrapper.Filter.Add.{
  AddSite, ends_in_slash, count_slashes, has_wildcard, with_wild, new_flags, new_pattern, made_rule,
  becomes_abs, pre_text,
}

no_slash : (m : Bytes → Bool) (s : Bytes) → last_slash s ≡ none → behind_slash m s ≡ false
unfolding last_slash behind_slash
no_slash m [] e = refl
no_slash m (c ∷ s) e = elim (Option-cases (last_slash s)) [
  | inl gone ↦ ground (arith, no_slash m s gone)
  | inr (q, there) ↦ absurd (ground arith)
]

last_slash-none : (s q : Bytes) → last_slash s ≡ some q → last_slash q ≡ none
unfolding last_slash
last_slash-none [] q e = absurd (ground arith)
last_slash-none (c ∷ s) q e = elim (Option-cases (last_slash s)) [
  | inl gone ↦ ground arith
  | inr (r, there) ↦ ground (arith, last_slash-none s r there)
]

-- A text with a slash is none without.
slashed : (s q p : Bytes) → last_slash s ≡ some q → count_slashes p ≡ 0 → bytes_eq s p ≡ false
unfolding last_slash count_slashes bytes_eq
slashed [] q p e z = absurd (ground arith)
slashed (c ∷ s) q [] e z = refl
slashed (c ∷ s) q (d ∷ p) e z = elim (Option-cases (last_slash s)) [
  | inl gone ↦ ground arith
  | inr (r, there) ↦ ground (arith, slashed s r p there)
]

behind_last :
    (s q p : Bytes)
    → last_slash s ≡ some q
    → count_slashes p ≡ 0
    → behind_slash (λ t. bytes_eq t p) s ≡ bytes_eq q p
unfolding last_slash behind_slash
behind_last [] q p e z = absurd (ground arith)
behind_last (c ∷ s) q p e z = elim (Option-cases (last_slash s)) [
  | inl gone ↦ ground (arith, no_slash (λ t. bytes_eq t p) s gone)
  | inr (r, there) ↦ ground (arith, slashed s r p there z, behind_last s r p there z)
]

-- A pattern without a slash is looked for in the last name only, which comes to the same.
is_tail-base_name : (s p : Bytes) → count_slashes p ≡ 0 → is_tail (base_name s) p ≡ is_tail s p
unfolding is_tail base_name
is_tail-base_name s p z = elim (Option-cases (last_slash s)) [
  | inl gone ↦ rw (base_name, gone) refl
  | inr (q, there) ↦
      rw (base_name, there)
        (ground (
          arith,
          no_slash (λ t. bytes_eq t p) q (last_slash-none s q there),
          slashed s q p there z,
          behind_last s q p there z,
        ))
]

has_wildcard-take : (n : ℕ) (s : Bytes) → has_wildcard s ≡ false → has_wildcard (take n s) ≡ false
unfolding has_wildcard
has_wildcard-take zero s h = refl
has_wildcard-take (suc n) [] h = refl
has_wildcard-take (suc n) (c ∷ s) h = ground (arith, has_wildcard-take n s)

-- A pattern behind a slash is the whole name, another one its end behind a slash.
unfoldable pub literal_hits : Bytes → Bytes → Bool
unfolding is_anchored is_tail
literal_hits body name = if is_anchored body then bytes_eq name (drop 1 body) else is_tail name body

-- Flags and options that make no pattern absolute or wild.
pub record IsPlain (f : Flags) (xflags : XFlags) : Type 0 where
  pub no_wild : f.wild ≡ false
  pub no_wild2 : f.wild2 ≡ false
  pub no_prefix : f.wild2_prefix ≡ false
  pub no_suffix : f.wild3_suffix ≡ false
  pub relative : f.abs_path ≡ false
  pub any_kind : f.directory ≡ false
  pub anchored2abs : xflags.anchored2abs ≡ false
  pub abs_if_slash : xflags.abs_if_slash ≡ false
  pub dir2wild3 : xflags.dir2wild3 ≡ false

-- The pattern without the slash that asks for a directory.
unfoldable pub body_of : Bytes → Bytes
unfolding ends_in_slash
body_of pat = if ends_in_slash pat then take (length pat - 1) pat else pat

-- A rule that has no flags for wildcards.
pub record IsLiteral (ex : FilterRule) : Type 0 where
  pub no_wild : ex.rflags.wild ≡ false
  pub no_wild2 : ex.rflags.wild2 ≡ false
  pub no_prefix : ex.rflags.wild2_prefix ≡ false
  pub no_suffix : ex.rflags.wild3_suffix ≡ false
  pub relative : ex.rflags.abs_path ≡ false
  pub slashes : ex.slash_cnt ≡ count_slashes ex.pattern

anchored-count_slashes : (p : Bytes) → is_anchored p ≡ true → count_slashes p ≢ 0
unfolding is_anchored count_slashes
anchored-count_slashes [] h e = absurd (ground arith)
anchored-count_slashes (c ∷ p) h e = absurd (ground arith)

module _ (site : Site) (fname : Bytes) (ex : FilterRule) (name_flags : NameFlags)
    (w : IsLiteral ex) where
  one_string : strings_of site fname ex name_flags ≡ matched_name fname ex ∷ []
  unfolding strings_of front_strings
  one_string = elim (Bool-cases (ex.slash_cnt == 0 && not ex.rflags.wild2)) [
    | inl no_slashes ↦ ground (arith, w.no_suffix)
    | inr slashes ↦
        rw (strings_of, front_strings, slashes, w.relative, w.no_prefix) ground (arith, w.no_suffix)
  ]

  whole_name : ex.slash_cnt == 0 ≡ false → matched_name fname ex ≡ behind_first_slash fname
  unfolding matched_name
  whole_name e = rw (matched_name, e) refl

  last_name :
      ex.slash_cnt == 0 ≡ true → matched_name fname ex ≡ base_name (behind_first_slash fname)
  unfolding matched_name
  last_name e = rw (matched_name, e, w.no_wild2) refl

  one_hit :
      (name : Bytes)
      → is_hit ex (name ∷ []) name ≡ (
          if is_anchored ex.pattern
          then bytes_eq name (behind_first_slash ex.pattern)
          else is_tail name (behind_first_slash ex.pattern))
  unfolding is_hit
  one_hit name = rw (is_hit, w.no_wild) refl

  is_hit_lem :
      is_hit ex (strings_of site fname ex name_flags) (matched_name fname ex)
      ≡ literal_hits ex.pattern (behind_first_slash fname)
  unfolding literal_hits behind_first_slash is_anchored
  is_hit_lem =
      ap (λ (x : List Bytes). is_hit ex x (matched_name fname ex)) one_string
      ∙ one_hit (matched_name fname ex)
      ∙ elim (Bool-cases (is_anchored ex.pattern)) [
        | inl anchored ↦
            let several : ex.slash_cnt == 0 ≡ false =
              ground (arith, w.slashes, anchored-count_slashes ex.pattern anchored) in
            rw (whole_name several, anchored) refl
        | inr loose ↦ elim (Bool-cases (ex.slash_cnt == 0)) [
          | inl no_slashes ↦
              let z : count_slashes ex.pattern ≡ 0 = ground (arith, w.slashes) in
              rw (last_name no_slashes, loose)
                (is_tail-base_name (behind_first_slash fname) ex.pattern z)
          | inr slashes ↦ rw (whole_name slashes, loose) refl
        ]
      ]

-- What `add_rule` makes.
module _ (site : AddSite) (f : Flags) (pat : Bytes) (xflags : XFlags) (p : IsPlain f xflags)
    (plain : has_wildcard pat ≡ false) where
  stays_relative : (body : Bytes) → becomes_abs f body xflags ≡ false
  unfolding becomes_abs
  stays_relative body = ground (arith, p.anchored2abs, p.abs_if_slash)

  new_pattern_lem : new_pattern site f pat xflags ≡ body_of pat
  unfolding new_pattern pre_text body_of
  new_pattern_lem =
      rw (new_pattern, pre_text, stays_relative (body_of pat), p.dir2wild3)
        (append-nil (body_of pat))

  with_wild_lem :
      with_wild (new_flags f pat xflags) (new_pattern site f pat xflags) ≡ new_flags f pat xflags
  unfolding with_wild body_of
  with_wild_lem =
      let none_there : has_wildcard (body_of pat) ≡ false =
        ground (arith, has_wildcard-take (length pat - 1) pat plain) in
      rw (new_pattern_lem, with_wild, none_there) refl

  new_flags_lem :
      new_flags f pat xflags ≡ record f { directory = ends_in_slash pat; abs_path = false }
  unfolding new_flags body_of
  new_flags_lem =
      rw (new_flags, stays_relative (body_of pat), p.relative, p.any_kind, p.dir2wild3) ground arith

  made_rule_lem : made_rule site f pat xflags ≡ record {
    pattern = body_of pat;
    rflags = record f { directory = ends_in_slash pat; abs_path = false };
    slash_cnt = count_slashes (body_of pat);
  }
  unfolding made_rule
  made_rule_lem = rw (made_rule, with_wild_lem, new_flags_lem, new_pattern_lem) refl

  made_rule-IsLiteral : IsLiteral (record {
    pattern = body_of pat;
    rflags = record f { directory = ends_in_slash pat; abs_path = false };
    slash_cnt = count_slashes (body_of pat);
  })
  made_rule-IsLiteral = record {
    no_wild = p.no_wild;
    no_wild2 = p.no_wild2;
    no_prefix = p.no_prefix;
    no_suffix = p.no_suffix;
    relative = refl;
    slashes = refl;
  }

  -- For a pattern without wildcards, the rule that add_rule makes of it, where the list makes no patterns absolute or
  -- wild, matches as its text says: a name that is not the root and is an xattr as the rule is, which is a directory if the
  -- pattern ends in a slash, and which is what stands behind the slash at the start of the pattern or else ends with
  -- the pattern, from its start or from behind a slash. A negated rule of the right kind matches where that is not so.
  pub rule_matches-made_rule :
      (here : Site) (fname : Bytes) (name_flags : NameFlags)
      → rule_matches here fname (made_rule site f pat xflags) name_flags
        ≡ ok (
            not (length (behind_first_slash fname) == 0)
            && (not (differ name_flags.is_xattr f.xattr)
                && differ f.negate (
                    (name_flags.is_dir || not (ends_in_slash pat))
                    && literal_hits (body_of pat) (behind_first_slash fname))))
  unfolding says
  rule_matches-made_rule here fname name_flags =
      let rule : FilterRule = record {
        pattern = body_of pat;
        rflags = record f { directory = ends_in_slash pat; abs_path = false };
        slash_cnt = count_slashes (body_of pat);
      } in
      ap (λ (ex : FilterRule). rule_matches here fname ex name_flags) made_rule_lem
      ∙ rule_matches_lem here fname rule name_flags
      ∙ rw (says, is_hit_lem here fname rule name_flags made_rule-IsLiteral) refl
