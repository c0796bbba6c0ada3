-- ===== src/Filter/Prefix.antt =====
-- exclude.c: `get_rule_prefix`, a rule's flags as text, and what `parse_rule_tok` reads from it.
use rsync_wrapper.Prelude.{ℕ, ltb, leb, ◌==◌, if◌then◌else◌, Bool, not, ◌&&◌, ◌||◌}
use rsync_wrapper.Prelude.{Bytes, [], ◌∷◌, ◌++◌, length, get_or, Option, none, some}
use rsync_wrapper.Filter.{Flags, FilterRule}

-- The globals that the prefix depends on.
pub record Peer : Type 0 where
  pub protocol_version : ℕ
  pub am_sender : Bool
  pub delete_excluded : Bool

-- `*op++ = c`, if the flag is set.
unfoldable pub mark : Bool → ℕ → Bytes
mark flag c = if flag then c ∷ [] else []

-- The modifiers from 'C' to the prefixes.
unfoldable pub merge_marks : Flags → Bytes
unfolding mark
merge_marks f =
    if f.cvs_ignore
    then 67 ∷ []
    else mark f.no_inherit 110
      ++ (mark f.word_split 119 ++ mark f.no_prefixes (if f.include then 43 else 45))

-- From `if (rule->rflags & FILTRULE_PERDIR_MERGE)` on: the first character, and `legal_len`.
unfoldable pub first_mark : FilterRule → Bytes → ℕ → Option (Bytes × ℕ)
first_mark rule pat legal_len =
    if rule.rflags.perdir_merge
    then if legal_len == 1 then none else some (58 ∷ [], legal_len)
    else if rule.rflags.include
    then some (43 ∷ [], legal_len)
    else if not (legal_len == 1)
        || ((get_or pat 0 0 == 45 || get_or pat 0 0 == 43) && get_or pat 1 0 == 32)
    then some (45 ∷ [], legal_len)
    else some ([], 0)

-- The perishable mark; none for a rule that the other side would not keep.
unfoldable pub perishable_mark : Peer → Bool → Flags → Option Bytes
perishable_mark tr for_xfer f =
    if not f.perishable
    then some []
    else if not for_xfer || leb 30 tr.protocol_version
    then some (112 ∷ [])
    else if tr.am_sender
    then none
    else some []

-- All modifiers but the last.
unfoldable pub marks : Peer → Bool → Flags → Bytes
unfolding mark merge_marks
marks tr for_xfer f =
    mark f.abs_path 47
    ++ (mark f.negate 33
        ++ (merge_marks f
            ++ (mark f.exclude_self 101
                ++ (mark f.xattr 120
                    ++ (mark (f.sender_side && (not for_xfer || leb 29 tr.protocol_version)) 115
                        ++ mark
                            (f.receiver_side
                              && (not for_xfer
                                  || (leb 29 tr.protocol_version
                                      || tr.delete_excluded && tr.am_sender)))
                            114)))))

-- `get_rule_prefix`. MAX_RULE_PREFIX is 16.
unfoldable pub get_rule_prefix : Peer → FilterRule → Bytes → Bool → Option Bytes
unfolding first_mark marks perishable_mark
get_rule_prefix tr rule pat for_xfer =
    elim (first_mark rule pat (if for_xfer && ltb tr.protocol_version 29 then 1 else 15)) [
      | none ↦ none
      | some (first, legal_len) ↦ elim (perishable_mark tr for_xfer rule.rflags) [
        | none ↦ none
        | some last ↦
            let buf = first ++ (marks tr for_xfer rule.rflags ++ last) in
            if ltb legal_len (length buf)
            then none
            else some (if legal_len == 0 then buf else buf ++ (32 ∷ []))
      ]
    ]
