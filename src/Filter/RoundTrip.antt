-- ===== src/Filter/RoundTrip.antt =====
-- exclude.c: a rule that is sent as text by `get_rule_prefix` is read by `parse_rule_tok`.
use rsync_wrapper.Prelude.{
  ℕ, suc, ◌≡◌, refl, ap, ◌∙◌, arith, ltb, leb, ◌==◌, if◌then◌else◌, Bool, true, false, not, ◌&&◌,
  ◌||◌, Bool-cases, inl, inr, append_assoc,
}
use rsync_wrapper.Prelude.{Bytes, [], ◌∷◌, ◌++◌, length, get_or, take, drop, some, ok}
use rsync_wrapper.Filter.{Flags, FilterRule}
use rsync_wrapper.Filter.Parse.{
  XFlags, no_flags, from_container, rule_char, rule_kind, parse_prefix, take_sides, pat_length,
  check_length, unmodified_side, finish_tok, parse_rule_tok,
}
use rsync_wrapper.Filter.Prefix.{Peer, mark, first_mark, perishable_mark, marks, get_rule_prefix}
use rsync_wrapper.Filter.Marks.{IsParsed, carried, all_marks, kind_flags, all_marks_lem}
use rsync_wrapper.Filter.Modifiers.{length-all_marks, all_marks_plain, next_plain}

-- A pattern that is not split into words is the rest of the string.
whole_length : (s : Bytes) → pat_length false s ≡ length s
unfolding pat_length
whole_length [] = refl
whole_length (c ∷ s) = ap suc (whole_length s)

take_whole : (s : Bytes) → take (length s) s ≡ s
take_whole [] = refl
take_whole (c ∷ s) = ap (λ (y : Bytes). c ∷ y) (take_whole s)

drop_whole : (s : Bytes) → drop (length s) s ≡ []
drop_whole [] = refl
drop_whole (c ∷ s) = drop_whole s

module _ (f : Flags) (w : IsParsed f) where
  -- What `get_rule_prefix` makes of the flags.
  kind_char : ℕ
  kind_char = if f.perdir_merge then 58 else if f.include then 43 else 45

  prefix : Bytes
  unfolding kind_char
  prefix = (kind_char ∷ (all_marks f ++ mark f.perishable 112)) ++ (32 ∷ [])

  module _ (tr : Peer) (for_xfer : Bool)
      (modern : not for_xfer || leb 30 tr.protocol_version ≡ true) where
    marks_lem : marks tr for_xfer f ≡ all_marks f
    unfolding marks all_marks
    marks_lem =
        let sends : f.sender_side && (not for_xfer || leb 29 tr.protocol_version) ≡ f.sender_side =
          ground arith in
        let receives : (f.receiver_side
              && (not for_xfer
                  || (leb 29 tr.protocol_version || tr.delete_excluded && tr.am_sender)))
            ≡ f.receiver_side =
          ground arith in
        rw (sends, receives) refl

    perishable_mark_lem : perishable_mark tr for_xfer f ≡ some (mark f.perishable 112)
    unfolding perishable_mark mark
    perishable_mark_lem = elim (Bool-cases f.perishable) [
      | inl perishable ↦ rw (perishable, modern) refl
      | inr lasting ↦ rw lasting refl
    ]

    first_mark_lem :
        (pattern : Bytes) (n : ℕ) (pat : Bytes)
        → first_mark (record { pattern = pattern; rflags = f; slash_cnt = n }) pat 15
          ≡ some (kind_char ∷ [], 15)
    unfolding first_mark kind_char
    first_mark_lem pattern n pat = elim (Bool-cases f.perdir_merge) [
      | inl merges ↦ rw merges refl
      | inr plain ↦ elim (Bool-cases f.include) [
        | inl include ↦ rw (plain, include) refl
        | inr exclude ↦ rw (plain, exclude) refl
      ]
    ]

    get_rule_prefix_lem :
        (pattern : Bytes) (n : ℕ) (pat : Bytes)
        → get_rule_prefix tr (record { pattern = pattern; rflags = f; slash_cnt = n }) pat for_xfer
          ≡ some prefix
    unfolding get_rule_prefix prefix
    get_rule_prefix_lem pattern n pat =
        let legal : for_xfer && ltb tr.protocol_version 29 ≡ false = ground arith in
        let fits : ltb 15 (suc (length (all_marks f ++ mark f.perishable 112))) ≡ false =
          ground (arith, length-all_marks f) in
        rw
          (
            get_rule_prefix,
            legal,
            first_mark_lem pattern n pat,
            perishable_mark_lem,
            marks_lem,
            fits,
          )
          refl

  kind_lem : rule_kind kind_char no_flags ≡ ok (kind_flags f w, false)
  unfolding rule_kind kind_char
  kind_lem = elim (Bool-cases f.perdir_merge) [
    | inl merges ↦ rw merges refl
    | inr plain ↦ elim (Bool-cases f.include) [
      | inl include ↦ rw (plain, include) refl
      | inr exclude ↦ rw (plain, exclude) refl
    ]
  ]

  rule_char_lem :
      (s : Bytes)
      → get_or s 0 0 == 44 ≡ false
      → rule_char (kind_char ∷ s) ≡ (kind_char, kind_char ∷ s)
  unfolding rule_char kind_char
  rule_char_lem s h = elim (Bool-cases f.perdir_merge) [
    | inl merges ↦ rw (merges, h) refl
    | inr plain ↦ elim (Bool-cases f.include) [
      | inl include ↦ rw (plain, include, h) refl
      | inr exclude ↦ rw (plain, exclude, h) refl
    ]
  ]

  kind_char_lem : kind_char == 33 ≡ false
  unfolding kind_char
  kind_char_lem = ground arith

  parse_prefix_lem :
      (pat : Bytes) → parse_prefix no_flags false (prefix ++ pat) ≡ ok (carried f, pat)
  unfolding parse_prefix from_container prefix
  parse_prefix_lem pat =
      let m = all_marks f ++ mark f.perishable 112 in
      let at : prefix ++ pat ≡ kind_char ∷ (m ++ (32 ∷ pat)) =
        ap (λ (y : Bytes). kind_char ∷ y) (append_assoc m (32 ∷ []) pat) in
      let run : parse_prefix no_flags false (kind_char ∷ (m ++ (32 ∷ pat))) ≡ ok (carried f, pat) =
        let char = rule_char_lem (m ++ (32 ∷ pat)) (next_plain f m pat (all_marks_plain f)) in
        rw (parse_prefix, char, kind_lem, kind_char_lem, char) (all_marks_lem f w pat) in
      ap (parse_prefix no_flags false) at ∙ run

  -- The text of a rule, and the pattern behind it.
  parse_rule_tok_lem :
      (delete_excluded : Bool) (pat : Bytes) (xflags : XFlags)
      → xflags.old_prefixes ≡ false
      → length pat == 0 && not f.cvs_ignore ≡ false
      → parse_rule_tok delete_excluded (prefix ++ pat) no_flags xflags
        ≡ ok (
            some (record {
              rflags = unmodified_side delete_excluded (carried f);
              pat = pat;
              rest = [];
            }))
  unfolding parse_rule_tok finish_tok take_sides check_length prefix carried
  parse_rule_tok_lem delete_excluded pat xflags new some_pat =
      let some_text : length (prefix ++ pat) == 0 ≡ false = ground arith in
      rw
        (
          parse_rule_tok,
          some_text,
          new,
          parse_prefix_lem pat,
          finish_tok,
          whole_length pat,
          check_length,
          some_pat,
          take_whole pat,
          drop_whole pat,
        )
        refl

-- For every rule whose flags are those that parsing makes, `get_rule_prefix` has a prefix, for another side of protocol
-- 30 or later and for no other side, and `parse_rule_tok` without a template reads from the prefix and any pattern behind
-- it that is not empty, or the empty one of a rule for CVS, the whole of that pattern and the flags of the rule: all but
-- those for the pattern, which `add_rule` sets anew, and with the sender's side where excluded files are deleted and the
-- rule names no side.
pub parse_rule_tok-get_rule_prefix :
    (tr : Peer) (for_xfer : Bool) (rule : FilterRule) (pat : Bytes) (delete_excluded : Bool)
    (xflags : XFlags)
    → IsParsed rule.rflags
    → not for_xfer || leb 30 tr.protocol_version ≡ true
    → xflags.old_prefixes ≡ false
    → length pat == 0 && not rule.rflags.cvs_ignore ≡ false
    → (text : Bytes) × (get_rule_prefix tr rule rule.pattern for_xfer ≡ some text)
      × (parse_rule_tok delete_excluded (text ++ pat) no_flags xflags
          ≡ ok (
              some (record {
                rflags = unmodified_side delete_excluded (carried rule.rflags);
                pat = pat;
                rest = [];
              })))
parse_rule_tok-get_rule_prefix tr for_xfer rule pat delete_excluded xflags w modern new some_pat = (
  prefix rule.rflags w,
  get_rule_prefix_lem rule.rflags w tr for_xfer modern rule.pattern rule.slash_cnt rule.pattern,
  parse_rule_tok_lem rule.rflags w delete_excluded pat xflags new some_pat,
)
