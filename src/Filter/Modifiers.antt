-- ===== src/Filter/Modifiers.antt =====
-- exclude.c: the length and the characters of a rule's modifiers.
use rsync_wrapper.Prelude.{
  ℕ, ◌+◌, ◌≤◌, ◌≡◌, refl, arith, ◌==◌, if◌then◌else◌, Bool, true, false, not, ◌&&◌, Bool-cases, inl,
  inr,
}
use rsync_wrapper.Prelude.{Bytes, [], ◌∷◌, ◌++◌, length, length-append, get_or}
use rsync_wrapper.Filter.{Flags}
use rsync_wrapper.Filter.Prefix.{mark, merge_marks}
use rsync_wrapper.Filter.Marks.{all_marks}

module _ (f : Flags) where
  length-mark : (b : Bool) (c : ℕ) → length (mark b c) ≤ 1
  unfolding mark
  length-mark true c = omega arith
  length-mark false c = omega arith

  length-merge_marks : length (merge_marks f) ≤ 3
  unfolding merge_marks
  length-merge_marks = elim (Bool-cases f.cvs_ignore) [
    | inl cvs ↦ rw cvs omega (arith)
    | inr other ↦
        let prefixes = mark f.no_prefixes (if f.include then 43 else 45) in
        rw other (
          omega (
            arith,
            length-append (mark f.no_inherit 110) (mark f.word_split 119 ++ prefixes),
            length-append (mark f.word_split 119) prefixes,
            length-mark f.no_inherit 110,
            length-mark f.word_split 119,
            length-mark f.no_prefixes (if f.include then 43 else 45),
          ))
  ]

  length-join : (a b : Bytes) (m n : ℕ) → length a ≤ m → length b ≤ n → length (a ++ b) ≤ m + n
  length-join a b m n h k = omega (arith, length-append a b)

  pub length-all_marks : length (all_marks f ++ mark f.perishable 112) ≤ 10
  unfolding all_marks
  length-all_marks =
      length-join (all_marks f) (mark f.perishable 112) 9 1
        (length-join (mark f.abs_path 47) _ 1 8 (length-mark f.abs_path 47) (
          length-join (mark f.negate 33) _ 1 7 (length-mark f.negate 33) (
            length-join (merge_marks f) _ 3 4 length-merge_marks (
              length-join (mark f.exclude_self 101) _ 1 3 (length-mark f.exclude_self 101) (
                length-join (mark f.xattr 120) _ 1 2 (length-mark f.xattr 120) (
                  length-join (mark f.sender_side 115) (mark f.receiver_side 114) 1 1
                    (length-mark f.sender_side 115) (length-mark f.receiver_side 114)))))))
        (length-mark f.perishable 112)

  -- No comma among the modifiers.
  pub no_comma : Bytes → Bool
  no_comma [] = true
  no_comma (c ∷ s) = not (c == 44) && no_comma s

  both : (x y : Bytes) → no_comma x ≡ true → no_comma y ≡ true → no_comma (x ++ y) ≡ true
  unfolding no_comma
  both [] y h k = k
  both (c ∷ x) y h k = ground (arith, both x y)

  mark_plain : (b : Bool) (c : ℕ) → c == 44 ≡ false → no_comma (mark b c) ≡ true
  unfolding mark no_comma
  mark_plain true c h = rw h refl
  mark_plain false c h = refl

  merge_marks_plain : no_comma (merge_marks f) ≡ true
  unfolding merge_marks no_comma
  merge_marks_plain = elim (Bool-cases f.cvs_ignore) [
    | inl cvs ↦ rw cvs refl
    | inr other ↦ rw other (
        both (mark f.no_inherit 110) _ (mark_plain f.no_inherit 110 refl) (
          both (mark f.word_split 119) _ (mark_plain f.word_split 119 refl)
            (mark_plain f.no_prefixes (if f.include then 43 else 45) ground arith)))
  ]

  pub all_marks_plain : no_comma (all_marks f ++ mark f.perishable 112) ≡ true
  unfolding all_marks
  all_marks_plain =
      both (all_marks f) (mark f.perishable 112)
        (both (mark f.abs_path 47) _ (mark_plain f.abs_path 47 refl) (
          both (mark f.negate 33) _ (mark_plain f.negate 33 refl) (
            both (merge_marks f) _ merge_marks_plain (
              both (mark f.exclude_self 101) _ (mark_plain f.exclude_self 101 refl) (
                both (mark f.xattr 120) _ (mark_plain f.xattr 120 refl) (
                  both (mark f.sender_side 115) (mark f.receiver_side 114)
                    (mark_plain f.sender_side 115 refl) (mark_plain f.receiver_side 114 refl)))))))
        (mark_plain f.perishable 112 refl)

  pub next_plain : (m s : Bytes) → no_comma m ≡ true → get_or (m ++ (32 ∷ s)) 0 0 == 44 ≡ false
  unfolding no_comma
  next_plain [] s h = refl
  next_plain (c ∷ m) s h = ground arith
