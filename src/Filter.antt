-- ===== src/Filter.antt =====
-- exclude.c: whether a rule matches a name, and what a list of rules says of it. A string is the list of its
-- characters without the final NUL. The flags of a rule are a record of Booleans, and the list of a rule that merges
-- stands in the list beside the rule.
pub mod Meaning
pub mod First
pub mod Parse
pub mod Prefix
pub mod Add
pub mod Literals
pub mod Marks
pub mod Modifiers
pub mod RoundTrip
use rsync_wrapper.Prelude.{
  ℕ, zero, suc, ◌+◌, ◌-◌, ltb, leb, ◌==◌, if◌then◌else◌, Bool, true, false, not, ◌&&◌, ◌||◌,
}
use rsync_wrapper.Prelude.{
  Bytes, List, [], ◌∷◌, ◌++◌, length, get_or, drop, Option, none, some, Result, ok, exit, stuck,
}
use rsync_wrapper.Prelude.Int.{ℤ, pos, negsuc}
use rsync_wrapper.Match.Search.{bytes_eq}
use rsync_wrapper.Literal.{litmatch_array}
use rsync_wrapper.Wild.{wildmatch_array}

-- FILTRULE_WILD to FILTRULE_XATTR.
pub record Flags : Type 0 where
  pub wild : Bool
  pub wild2 : Bool
  pub wild2_prefix : Bool
  pub wild3_suffix : Bool
  pub abs_path : Bool
  pub include : Bool
  pub directory : Bool
  pub word_split : Bool
  pub no_inherit : Bool
  pub no_prefixes : Bool
  pub merge_file : Bool
  pub perdir_merge : Bool
  pub exclude_self : Bool
  pub finish_setup : Bool
  pub negate : Bool
  pub cvs_ignore : Bool
  pub sender_side : Bool
  pub receiver_side : Bool
  pub clear_list : Bool
  pub perishable : Bool
  pub xattr : Bool

pub record FilterRule : Type 0 where
  pub pattern : Bytes
  pub rflags : Flags
  pub slash_cnt : ℕ

-- A list of rules: each with the list of `u.mergelist`, which only a per-directory merge has.
pub data Rules : Type 0 where
  no_rules : Rules
  rule_then : FilterRule → Rules → Rules → Rules

-- NAME_IS_DIR and NAME_IS_XATTR.
pub record NameFlags : Type 0 where
  pub is_dir : Bool
  pub is_xattr : Bool

-- The globals that the matching reads.
pub record Site : Type 0 where
  pub curr_dir : Bytes
  pub module_dirlen : ℕ
  pub ignore_perishable : Bool

-- `fname + (*fname == '/')`
unfoldable pub behind_first_slash : Bytes → Bytes
behind_first_slash fname = if get_or fname 0 0 == 47 then drop 1 fname else fname

-- `strrchr(name,'/')`, and what is behind it, or the whole.
unfoldable pub last_slash : Bytes → Option Bytes
last_slash [] = none
last_slash (c ∷ s) = elim (last_slash s) [
  | some p ↦ some p
  | none ↦ if c == 47 then some s else none
]

unfoldable pub base_name : Bytes → Bytes
unfolding last_slash
base_name name = elim (last_slash name) [ none ↦ name | some p ↦ p ]

-- The strings before the name, and the name that is matched.
unfoldable pub front_strings : Site → Bytes → FilterRule → List Bytes
front_strings site fname ex =
    if ex.slash_cnt == 0 && not ex.rflags.wild2
    then []
    else if ex.rflags.abs_path
        && (not (get_or fname 0 0 == 47) && ltb (site.module_dirlen + 1) (length site.curr_dir))
    then drop (site.module_dirlen + 1) site.curr_dir ∷ (47 ∷ []) ∷ []
    else if ex.rflags.wild2_prefix && not (get_or fname 0 0 == 47)
    then (47 ∷ []) ∷ []
    else []

unfoldable pub matched_name : Bytes → FilterRule → Bytes
unfolding behind_first_slash base_name
matched_name fname ex =
    if ex.slash_cnt == 0 && not ex.rflags.wild2
    then base_name (behind_first_slash fname)
    else behind_first_slash fname

unfoldable pub strings_of : Site → Bytes → FilterRule → NameFlags → List Bytes
unfolding front_strings matched_name
strings_of site fname ex name_flags =
    front_strings site fname ex
    ++ (matched_name fname ex
        ∷ (if name_flags.is_dir && ex.rflags.wild3_suffix then (47 ∷ []) ∷ [] else []))

unfoldable pub is_anchored : Bytes → Bool
is_anchored pattern = get_or pattern 0 0 == 47

unfoldable pub slash_handling : FilterRule → ℤ
unfolding is_anchored
slash_handling ex =
    let loose = not (is_anchored ex.pattern) in
    if loose && (not (ex.slash_cnt == 0) && not ex.rflags.wild2)
    then pos (ex.slash_cnt + 1)
    else if loose && (not ex.rflags.wild2_prefix && ex.rflags.wild2)
    then negsuc 0
    else pos 0

-- `litmatch_array` takes an int.
unfoldable pub from_end : ℤ → ℕ
from_end (pos n) = n
from_end (negsuc n) = 0

-- The pattern is the name, or its end behind a slash.
unfoldable pub name_ends : Bytes → Bytes → Bool
name_ends name pattern =
    let l1 = length name in
    let l2 = length pattern in
    leb l2 l1
    && (bytes_eq (drop (l1 - l2) name) pattern && (l1 == l2 || get_or name (l1 - (l2 + 1)) 0 == 47))

-- `if (ex->rflags & FILTRULE_WILD)` and the branches behind it.
unfoldable pub pattern_hits : FilterRule → List Bytes → Bytes → Result Bool
unfolding behind_first_slash slash_handling is_anchored from_end name_ends
pattern_hits ex strings name =
    let pattern = behind_first_slash ex.pattern in
    if ex.rflags.wild
    then wildmatch_array pattern strings (slash_handling ex)
    else if ltb 1 (length strings)
    then ok (litmatch_array pattern strings (from_end (slash_handling ex)))
    else if is_anchored ex.pattern
    then ok (bytes_eq name pattern)
    else ok (name_ends name pattern)

-- `return ret_match` or `return !ret_match`
unfoldable pub ret_match : Flags → Result Bool → Result Bool
ret_match rflags (exit e) = exit e
ret_match rflags (ok hit) = ok (if rflags.negate then not hit else hit)

unfoldable pub differ : Bool → Bool → Bool
differ a b = if a then not b else b

unfoldable pub rule_matches : Site → Bytes → FilterRule → NameFlags → Result Bool
unfolding pattern_hits ret_match differ strings_of matched_name
rule_matches site fname ex name_flags =
    if length (behind_first_slash fname) == 0
    then ok false
    else if differ (not name_flags.is_xattr) (not ex.rflags.xattr)
    then ok false
    else if not name_flags.is_dir && ex.rflags.directory
    then ret_match ex.rflags (ok false)
    else ret_match ex.rflags
        (pattern_hits ex (strings_of site fname ex name_flags) (matched_name fname ex))

-- `if (rc) return rc;`, or on with the list.
unfoldable pub unless_zero : Result ℤ → Result ℤ → Result ℤ
unless_zero (exit e) rest = exit e
unless_zero (ok (negsuc n)) rest = ok (negsuc n)
unless_zero (ok (pos zero)) rest = rest
unless_zero (ok (pos (suc n))) rest = ok (pos (suc n))

-- `return ent->rflags & FILTRULE_INCLUDE ? 1 : -1`, or on with the list.
unfoldable pub verdict : Flags → Result Bool → Result ℤ → Result ℤ
verdict rflags (exit e) rest = exit e
verdict rflags (ok true) rest = ok (if rflags.include then pos 1 else negsuc 0)
verdict rflags (ok false) rest = rest

-- The loop over a list, with what the list of CVS rules says.
unfoldable pub check_rules : Site → Result ℤ → Rules → Bytes → NameFlags → Result ℤ
unfolding rule_matches unless_zero verdict
check_rules site cvs no_rules name name_flags = ok (pos 0)
check_rules site cvs (rule_then ent mergelist next) name name_flags =
    let rest = check_rules site cvs next name name_flags in
    let merged = check_rules site cvs mergelist name name_flags in
    if site.ignore_perishable && ent.rflags.perishable
    then rest
    else if ent.rflags.perdir_merge
    then unless_zero merged rest
    else if ent.rflags.cvs_ignore
    then unless_zero cvs rest
    else verdict ent.rflags (rule_matches site name ent name_flags) rest

-- `check_filter`. A rule of the CVS list that asked for the CVS list again would not end.
unfoldable pub check_filter : Site → Rules → Rules → Bytes → NameFlags → Result ℤ
unfolding check_rules
check_filter site cvs_filter_list list name name_flags =
    check_rules site (check_rules site (exit stuck) cvs_filter_list name name_flags) list name
      name_flags

unfoldable pub is_excluded : Result ℤ → Result Bool
is_excluded (exit e) = exit e
is_excluded (ok (pos n)) = ok false
is_excluded (ok (negsuc n)) = ok true

-- `if (list.head && check_filter(&list, ...) < 0)`
unfoldable pub list_excludes : Site → Rules → Rules → Bytes → NameFlags → Result Bool
unfolding check_filter is_excluded
list_excludes site cvs no_rules name name_flags = ok false
list_excludes site cvs (rule_then ent mergelist next) name name_flags =
    is_excluded (check_filter site cvs (rule_then ent mergelist next) name name_flags)

-- The daemon's list, the user's, and the CVS list that both refer to.
pub record FilterLists : Type 0 where
  pub daemon : Rules
  pub user : Rules
  pub cvs : Rules

-- `filter_level == ALL_FILTERS` is the last argument.
unfoldable pub name_is_excluded : Site → FilterLists → Bytes → NameFlags → Bool → Result Bool
unfolding list_excludes
name_is_excluded site lists fname name_flags all_filters =
    elim (list_excludes site lists.cvs lists.daemon fname name_flags) [
      | exit e ↦ exit e
      | ok true ↦ ok true
      | ok false ↦
          if not all_filters
          then ok false
          else list_excludes site lists.cvs lists.user fname name_flags
    ]
