-- ===== src/Filter/Add.antt =====
-- exclude.c: `add_rule`. A list is what is local to it and what it inherits, and of the array of merge rules the patterns
-- are kept, none for a rule that is gone.
use rsync_wrapper.Prelude.{
  ℕ, suc, ◌-◌, ltb, leb, ◌==◌, if◌then◌else◌, Bool, true, false, not, ◌&&◌, ◌||◌,
}
use rsync_wrapper.Prelude.{
  Bytes, List, [], ◌∷◌, ◌++◌, length, get_or, take, drop, Option, none, some,
}
use rsync_wrapper.Match.Search.{bytes_eq}
use rsync_wrapper.Filter.{Flags, FilterRule, Rules, no_rules, rule_then, base_name}
use rsync_wrapper.Filter.Parse.{XFlags}

-- The globals that are read.
pub record AddSite : Type 0 where
  pub am_sender : Bool
  pub dirbuf : Bytes
  pub module_dirlen : ℕ

pub record RuleList : Type 0 where
  pub local_rules : Rules
  pub inherited : Rules
  pub mergelist_parents : List (Option Bytes)

-- A rule for the other side, in a list that is to be filtered now.
unfoldable pub is_other_side : Bool → Flags → XFlags → Bool
is_other_side am_sender f xflags =
    (xflags.anchored2abs || xflags.abs_if_slash)
    && (if am_sender
        then f.receiver_side && not f.sender_side
        else f.sender_side && not f.receiver_side)

-- `if (pat_len > 1 && pat[pat_len-1] == '/')`
unfoldable pub ends_in_slash : Bytes → Bool
ends_in_slash pat = ltb 1 (length pat) && get_or pat (length pat - 1) 0 == 47

unfoldable pub count_slashes : Bytes → ℕ
count_slashes [] = 0
count_slashes (c ∷ s) = let rest = count_slashes s in if c == 47 then suc rest else rest

-- The pattern becomes one of an absolute path.
unfoldable pub becomes_abs : Flags → Bytes → XFlags → Bool
unfolding count_slashes
becomes_abs f pat xflags =
    not (f.abs_path || f.merge_file)
    && ((xflags.anchored2abs || xflags.abs_if_slash) && get_or pat 0 0 == 47
        || xflags.abs_if_slash && not (count_slashes pat == 0))

-- What stands before the pattern: the directory without its last slash.
unfoldable pub pre_text : AddSite → Flags → Bytes → XFlags → Bytes
unfolding becomes_abs
pre_text site f pat xflags =
    if becomes_abs f pat xflags && get_or pat 0 0 == 47
    then take (length site.dirbuf - site.module_dirlen - 1) (drop site.module_dirlen site.dirbuf)
    else []

-- `strpbrk(rule->pattern, "*[?")`
unfoldable pub has_wildcard : Bytes → Bool
has_wildcard [] = false
has_wildcard (c ∷ s) = (c == 42 || (c == 91 || c == 63)) || has_wildcard s

-- `cp == rule->pattern` and `strstr(rule->pattern, "**")`
unfoldable pub starts_with_stars : Bytes → Bool
starts_with_stars s = get_or s 0 0 == 42 && get_or s 1 0 == 42

unfoldable pub has_stars : Bytes → Bool
unfolding starts_with_stars
has_stars [] = false
has_stars (c ∷ s) = let rest = has_stars s in starts_with_stars (c ∷ s) || rest

unfoldable pub ends_in_stars : Bytes → Bool
unfolding bytes_eq
ends_in_stars s = leb 3 (length s) && bytes_eq (drop (length s - 3) s) (42 ∷ 42 ∷ 42 ∷ [])

-- `if (strpbrk(rule->pattern, "*[?"))`
unfoldable pub with_wild : Flags → Bytes → Flags
unfolding has_wildcard has_stars starts_with_stars ends_in_stars
with_wild f pattern =
    if not (has_wildcard pattern)
    then f
    else if not (has_stars pattern)
    then record f { wild = true }
    else record f {
      wild = true;
      wild2 = true;
      wild2_prefix = f.wild2_prefix || starts_with_stars pattern;
      wild3_suffix = f.wild3_suffix || ends_in_stars pattern;
    }

-- The flags but for wildcards, and the pattern.
unfoldable pub new_flags : Flags → Bytes → XFlags → Flags
unfolding ends_in_slash becomes_abs
new_flags f pat xflags =
    let dir = f.directory || ends_in_slash pat in
    let body = (if ends_in_slash pat then take (length pat - 1) pat else pat) in
    record f {
      directory = dir && not (xflags.dir2wild3 && not f.include);
      abs_path = f.abs_path || becomes_abs f body xflags;
    }

unfoldable pub new_pattern : AddSite → Flags → Bytes → XFlags → Bytes
unfolding ends_in_slash pre_text
new_pattern site f pat xflags =
    let dir = f.directory || ends_in_slash pat in
    let body = (if ends_in_slash pat then take (length pat - 1) pat else pat) in
    pre_text site f body xflags
    ++ (body ++ (if xflags.dir2wild3 && (dir && not f.include) then 47 ∷ 42 ∷ 42 ∷ 42 ∷ [] else []))

-- The rule, with the slashes of its pattern counted.
unfoldable pub made_rule : AddSite → Flags → Bytes → XFlags → FilterRule
unfolding new_flags new_pattern with_wild count_slashes
made_rule site f pat xflags =
    let pattern = new_pattern site f pat xflags in
    record {
      pattern = pattern;
      rflags = with_wild (new_flags f pat xflags) pattern;
      slash_cnt = count_slashes pattern;
    }

-- Behind the tail.
unfoldable pub add_last : FilterRule → Rules → Rules
add_last rule no_rules = rule_then rule no_rules no_rules
add_last rule (rule_then ent mergelist next) = rule_then ent mergelist (add_last rule next)

-- The merge file was already mentioned.
unfoldable pub is_mentioned : List (Option Bytes) → Bytes → Bool
unfolding base_name bytes_eq
is_mentioned [] pattern = false
is_mentioned (none ∷ parents) pattern = is_mentioned parents pattern
is_mentioned (some ex ∷ parents) pattern =
    bytes_eq (base_name ex) (base_name pattern) || is_mentioned parents pattern

-- `add_rule`. A rule that is dropped leaves the list as it is.
unfoldable pub add_rule : AddSite → RuleList → Flags → Bytes → XFlags → RuleList
unfolding is_other_side made_rule add_last is_mentioned
add_rule site list f pat xflags =
    let rule = made_rule site f pat xflags in
    if is_other_side site.am_sender f xflags
    then list
    else if not rule.rflags.perdir_merge
    then record list { local_rules = add_last rule list.local_rules }
    else if is_mentioned list.mergelist_parents rule.pattern
    then list
    else record list {
      local_rules = add_last rule list.local_rules;
      mergelist_parents = list.mergelist_parents ++ (some rule.pattern ∷ []);
    }
