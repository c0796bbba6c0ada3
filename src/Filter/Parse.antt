-- ===== src/Filter/Parse.antt =====
-- exclude.c: `parse_rule_tok`, the next rule of a string of rules. `saw_xattr_filter`, which is set with the flag, is
-- left out. A pointer into a string is the rest of it.
use rsync_wrapper.Prelude.{
  ℕ, suc, ◌-◌, ltb, leb, ◌==◌, if◌then◌else◌, Bool, true, false, not, ◌&&◌, ◌||◌,
}
use rsync_wrapper.Prelude.{
  Bytes, [], ◌∷◌, length, get_or, take, drop, Option, none, some, Result, ok, exit, rerr_syntax,
  ◌>>=◌,
}
use rsync_wrapper.Match.Search.{bytes_eq}
use rsync_wrapper.Filter.{Flags}

-- XFLG_OLD_PREFIXES to XFLG_DIR2WILD3.
pub record XFlags : Type 0 where
  pub old_prefixes : Bool
  pub anchored2abs : Bool
  pub abs_if_slash : Bool
  pub dir2wild3 : Bool

-- The new rule, its pattern and what is left of the string.
pub record RuleTok : Type 0 where
  pub rflags : Flags
  pub pat : Bytes
  pub rest : Bytes

abbrev pub no_flags : Flags
no_flags = record {
  wild = false;
  wild2 = false;
  wild2_prefix = false;
  wild3_suffix = false;
  abs_path = false;
  include = false;
  directory = false;
  word_split = false;
  no_inherit = false;
  no_prefixes = false;
  merge_file = false;
  perdir_merge = false;
  exclude_self = false;
  finish_setup = false;
  negate = false;
  cvs_ignore = false;
  sender_side = false;
  receiver_side = false;
  clear_list = false;
  perishable = false;
  xattr = false;
}

-- `template->rflags & FILTRULES_FROM_CONTAINER`
unfoldable pub from_container : Flags → Flags
from_container t = record no_flags {
  abs_path = t.abs_path;
  include = t.include;
  directory = t.directory;
  negate = t.negate;
  perishable = t.perishable;
}

-- `flags & FILTRULES_SIDES`
abbrev pub one_side : Flags → Bool
one_side f = f.sender_side || f.receiver_side

unfoldable pub is_space : ℕ → Bool
is_space c = c == 32 || leb 9 c && leb c 13

unfoldable pub skip_space : Bytes → Bytes
unfolding is_space
skip_space [] = []
skip_space (c ∷ s) = if is_space c then skip_space s else c ∷ s

-- `rule_strcmp`: the last character of the word, or the comma behind it.
unfoldable pub rule_strcmp : Bytes → Bytes → Option Bytes
unfolding is_space
rule_strcmp str rule =
    let len = length rule in
    let behind = get_or str len 0 in
    if not (bytes_eq (take len str) rule)
    then none
    else if is_space behind || (behind == 95 || behind == 0)
    then some (drop (len - 1) str)
    else if behind == 44
    then some (drop len str)
    else none

-- The character that a word stands for, if it is the word.
unfoldable pub keyword : Bytes → Bytes → ℕ → ℕ × Bytes
unfolding rule_strcmp
keyword s word ch = elim (rule_strcmp s word) [ none ↦ (0, s) | some p ↦ (ch, p) ]

-- `switch (*s)`: `ch`, and `s` at the last character of the kind.
unfoldable pub rule_char : Bytes → ℕ × Bytes
unfolding keyword
rule_char s =
    let first = get_or s 0 0 in
    if first == 99
    then keyword s (99 ∷ 108 ∷ 101 ∷ 97 ∷ 114 ∷ []) 33
    else if first == 100
    then keyword s (100 ∷ 105 ∷ 114 ∷ 45 ∷ 109 ∷ 101 ∷ 114 ∷ 103 ∷ 101 ∷ []) 58
    else if first == 101
    then keyword s (101 ∷ 120 ∷ 99 ∷ 108 ∷ 117 ∷ 100 ∷ 101 ∷ []) 45
    else if first == 104
    then keyword s (104 ∷ 105 ∷ 100 ∷ 101 ∷ []) 72
    else if first == 105
    then keyword s (105 ∷ 110 ∷ 99 ∷ 108 ∷ 117 ∷ 100 ∷ 101 ∷ []) 43
    else if first == 109
    then keyword s (109 ∷ 101 ∷ 114 ∷ 103 ∷ 101 ∷ []) 46
    else if first == 112
    then keyword s (112 ∷ 114 ∷ 111 ∷ 116 ∷ 101 ∷ 99 ∷ 116 ∷ []) 80
    else if first == 114
    then keyword s (114 ∷ 105 ∷ 115 ∷ 107 ∷ []) 82
    else if first == 115
    then keyword s (115 ∷ 104 ∷ 111 ∷ 119 ∷ []) 83
    else (first, if get_or s 1 0 == 44 then drop 1 s else s)

-- `switch (ch)`, with `prefix_specifies_side`.
unfoldable pub rule_kind : ℕ → Flags → Result (Flags × Bool)
rule_kind ch f =
    if ch == 58
    then ok (record f { perdir_merge = true; finish_setup = true; merge_file = true }, false)
    else if ch == 46
    then ok (record f { merge_file = true }, false)
    else if ch == 43
    then ok (record f { include = true }, false)
    else if ch == 45
    then ok (f, false)
    else if ch == 83
    then ok (record f { include = true; sender_side = true }, true)
    else if ch == 72
    then ok (record f { sender_side = true }, true)
    else if ch == 82
    then ok (record f { include = true; receiver_side = true }, true)
    else if ch == 80
    then ok (record f { receiver_side = true }, true)
    else if ch == 33
    then ok (record f { clear_list = true }, false)
    else exit rerr_syntax

-- One modifier; none is `goto invalid`.
unfoldable pub modifier : Bool → ℕ → Flags → Option Flags
modifier side c f =
    if c == 45
    then if f.merge_file && not f.no_prefixes then some (record f { no_prefixes = true }) else none
    else if c == 43
    then if f.merge_file && not f.no_prefixes
      then some (record f { no_prefixes = true; include = true })
      else none
    else if c == 47
    then some (record f { abs_path = true })
    else if c == 33
    then if f.merge_file then none else some (record f { negate = true })
    else if c == 67
    then if f.no_prefixes || side
      then none
      else some
          (record f { no_prefixes = true; word_split = true; no_inherit = true; cvs_ignore = true })
    else if c == 101
    then if f.merge_file then some (record f { exclude_self = true }) else none
    else if c == 110
    then if f.merge_file then some (record f { no_inherit = true }) else none
    else if c == 112
    then some (record f { perishable = true })
    else if c == 114
    then if side then none else some (record f { receiver_side = true })
    else if c == 115
    then if side then none else some (record f { sender_side = true })
    else if c == 119
    then if f.merge_file then some (record f { word_split = true }) else none
    else if c == 120
    then some (record f { xattr = true })
    else none

-- The loop over the modifiers, and `if (*s) s++`. A space that splits words stays.
unfoldable pub modifiers : Bool → Bool → Flags → Bytes → Result (Flags × Bytes)
unfolding is_space modifier
modifiers word_split side f [] = ok (f, [])
modifiers word_split side f (c ∷ s) =
    if c == 32 || c == 95
    then ok (f, s)
    else if word_split && is_space c
    then ok (f, c ∷ s)
    else elim (modifier side c f) [
      | none ↦ exit rerr_syntax
      | some g ↦ modifiers word_split side g s
    ]

-- The prefix of a rule, by what prefixes are allowed.
unfoldable pub parse_prefix : Flags → Bool → Bytes → Result (Flags × Bytes)
unfolding from_container rule_char rule_kind modifiers
parse_prefix t old_prefixes s =
    let f = from_container t in
    let first = get_or s 0 0 in
    let second = get_or s 1 0 in
    if t.no_prefixes
    then ok (if first == 33 && t.cvs_ignore then record f { clear_list = true } else f, s)
    else if old_prefixes
    then if first == 45 && second == 32
      then ok (record f { include = false }, drop 2 s)
      else if first == 43 && second == 32
      then ok (record f { include = true }, drop 2 s)
      else ok (if first == 33 then record f { clear_list = true } else f, s)
    else do
      let (ch, p) = rule_char s
      (g, side) ← rule_kind ch f
      elim (ch == 33) [ true ↦ ok (g, drop 1 p) | false ↦ modifiers t.word_split side g (drop 1 p) ]

-- The sides of the template are for rules that name none.
unfoldable pub take_sides : Flags → Flags → Result Flags
take_sides t f =
    if one_side t
    then if one_side f
      then exit rerr_syntax
      else ok (record f { sender_side = t.sender_side; receiver_side = t.receiver_side })
    else ok f

unfoldable pub pat_length : Bool → Bytes → ℕ
unfolding is_space
pat_length word_split [] = 0
pat_length word_split (c ∷ s) =
    let rest = suc (pat_length word_split s) in if word_split && is_space c then 0 else rest

-- `if (rule->rflags & FILTRULE_CLEAR_LIST)`, and a rule without a pattern.
unfoldable pub check_length : Bool → ℕ → Flags → Result Flags
check_length old_prefixes len f =
    if f.clear_list
    then if not f.no_prefixes && (not old_prefixes && not (len == 0))
      then exit rerr_syntax
      else if ltb 1 len
      then ok (record f { clear_list = false })
      else ok f
    else if len == 0 && not f.cvs_ignore
    then exit rerr_syntax
    else ok f

unfoldable pub unmodified_side : Bool → Flags → Flags
unmodified_side delete_excluded f =
    if delete_excluded && not (one_side f || (f.merge_file || f.perdir_merge))
    then record f { sender_side = true }
    else f

-- From the flags of the prefix on.
unfoldable pub finish_tok : Bool → Flags → Bool → Flags → Bytes → Result (Option RuleTok)
unfolding take_sides pat_length check_length unmodified_side
finish_tok delete_excluded t old_prefixes f s = do
  g ← take_sides t f
  h ← check_length old_prefixes (pat_length t.word_split s) g
  ok (
      some (record {
        rflags = unmodified_side delete_excluded h;
        pat = take (pat_length t.word_split s) s;
        rest = drop (pat_length t.word_split s) s;
      }))

-- The string and the flags of the template.
unfoldable pub parse_rule_tok : Bool → Bytes → Flags → XFlags → Result (Option RuleTok)
unfolding parse_prefix skip_space finish_tok
parse_rule_tok delete_excluded rulestr t xflags =
    let s = (if t.word_split then skip_space rulestr else rulestr) in
    elim (length s == 0) [
      | true ↦ ok none
      | false ↦ (do
        (f, p) ← parse_prefix t xflags.old_prefixes s
        finish_tok delete_excluded t xflags.old_prefixes f p)
    ]
