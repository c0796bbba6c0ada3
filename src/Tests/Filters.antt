-- ===== src/Tests/Filters.antt =====
-- exclude.c: rules on a few names.
use rsync_wrapper.Prelude.{
  ◌≡◌, refl, arith, not, length, ◌&&◌, ◌||◌, true, false, some, ok, [], ◌∷◌, ◌++◌, Bytes,
}
use rsync_wrapper.Filter.{
  Site, FilterRule, NameFlags, no_rules, rule_then, FilterLists, rule_matches, name_is_excluded,
}
use rsync_wrapper.Match.Search.{bytes_eq}
use rsync_wrapper.Wild.{wildmatch_array}
use rsync_wrapper.Filter.{behind_first_slash, differ}
use rsync_wrapper.Prelude.{◌==◌}
use rsync_wrapper.Filter.First.{excludes, asks_cvs, name_is_excluded_lem}
use rsync_wrapper.Filter.Parse.{no_flags, XFlags, parse_rule_tok, unmodified_side}
use rsync_wrapper.Filter.Add.{AddSite, made_rule, ends_in_slash, has_wildcard}
use rsync_wrapper.Filter.Literals.{IsPlain, literal_hits, body_of, rule_matches-made_rule}
use rsync_wrapper.Filter.Prefix.{Peer, get_rule_prefix}
use rsync_wrapper.Filter.Marks.{IsParsed, carried}
use rsync_wrapper.Filter.RoundTrip.{parse_rule_tok-get_rule_prefix}

abbrev home : Site
home = record { curr_dir = 47 ∷ 97 ∷ []; module_dirlen = 0; ignore_perishable = false }

abbrev file : NameFlags
file = record { is_dir = false; is_xattr = false }

-- "*.o", excluded, and "a.o", included.
abbrev objects : FilterRule
objects = record {
  pattern = 42 ∷ 46 ∷ 111 ∷ [];
  rflags = record no_flags { wild = true };
  slash_cnt = 0;
}

abbrev one_object : FilterRule
one_object = record {
  pattern = 97 ∷ 46 ∷ 111 ∷ [];
  rflags = record no_flags { include = true };
  slash_cnt = 0;
}

-- The list of the CVS rules, which the user's list asks for.
abbrev lists : FilterLists
lists = record {
  daemon = no_rules;
  user = rule_then one_object no_rules (
      rule_then (record one_object { rflags = record no_flags { cvs_ignore = true } }) no_rules
        no_rules);
  cvs = rule_then objects no_rules no_rules;
}

-- "d/b.o"
abbrev b_object : Bytes
b_object = 100 ∷ 47 ∷ 98 ∷ 46 ∷ 111 ∷ []

name_is_excluded_lem_example :
    name_is_excluded home lists b_object file true
    ≡ ok (
        excludes home b_object file lists.cvs lists.daemon
        || true && excludes home b_object file lists.cvs lists.user)
name_is_excluded_lem_example =
    name_is_excluded_lem home b_object file lists true (unfold asks_cvs in refl)

excluded_run : name_is_excluded home lists b_object file true ≡ ok true
unfolding name_is_excluded bytes_eq wildmatch_array
excluded_run = refl

included_run : name_is_excluded home lists (100 ∷ 47 ∷ 97 ∷ 46 ∷ 111 ∷ []) file true ≡ ok false
unfolding name_is_excluded bytes_eq wildmatch_array
included_run = refl

-- ":-en " of a per-directory merge.
abbrev merge_rule : FilterRule
merge_rule = record {
  pattern = 46 ∷ 102 ∷ [];
  rflags = record no_flags {
    perdir_merge = true;
    merge_file = true;
    no_prefixes = true;
    no_inherit = true;
    exclude_self = true;
  };
  slash_cnt = 0;
}

abbrev peer : Peer
peer = record { protocol_version = 31; am_sender = true; delete_excluded = false }

abbrev no_xflags : XFlags
no_xflags = record {
  old_prefixes = false;
  anchored2abs = false;
  abs_if_slash = false;
  dir2wild3 = false;
}

merge_rule-IsParsed : IsParsed merge_rule.rflags
merge_rule-IsParsed = record {
  merges = refl;
  no_negation = λ e. refl;
  includes = λ e i. absurd (ground arith);
  no_merge = λ e. absurd (ground arith);
  plain = λ e. absurd (ground arith);
  cvs = λ e. absurd (ground arith);
}

prefix_run :
    get_rule_prefix peer merge_rule merge_rule.pattern true ≡ some (58 ∷ 110 ∷ 45 ∷ 101 ∷ 32 ∷ [])
unfolding get_rule_prefix
prefix_run = refl

parse_rule_tok-get_rule_prefix_example :
    (text : Bytes) × (get_rule_prefix peer merge_rule merge_rule.pattern true ≡ some text)
    × (parse_rule_tok false (text ++ (46 ∷ 102 ∷ [])) no_flags no_xflags
        ≡ ok (
            some (record {
              rflags = unmodified_side false (carried merge_rule.rflags);
              pat = 46 ∷ 102 ∷ [];
              rest = [];
            })))
parse_rule_tok-get_rule_prefix_example =
    parse_rule_tok-get_rule_prefix peer true merge_rule (46 ∷ 102 ∷ []) false no_xflags
      merge_rule-IsParsed refl refl refl

abbrev add_site : AddSite
add_site = record { am_sender = true; dirbuf = 47 ∷ []; module_dirlen = 0 }

no_flags-IsPlain : IsPlain no_flags no_xflags
no_flags-IsPlain = record {
  no_wild = refl;
  no_wild2 = refl;
  no_prefix = refl;
  no_suffix = refl;
  relative = refl;
  any_kind = refl;
  anchored2abs = refl;
  abs_if_slash = refl;
  dir2wild3 = refl;
}

-- "b.o/" does not match the file "d/b.o".
rule_matches-made_rule_example :
    rule_matches home b_object
      (made_rule add_site no_flags (98 ∷ 46 ∷ 111 ∷ 47 ∷ []) no_xflags)
      file
    ≡ ok (
        not (length (behind_first_slash b_object) == 0)
        && (not (differ false false)
            && differ false (
                (false || not (ends_in_slash (98 ∷ 46 ∷ 111 ∷ 47 ∷ [])))
                && literal_hits (body_of (98 ∷ 46 ∷ 111 ∷ 47 ∷ [])) (behind_first_slash b_object))))
rule_matches-made_rule_example =
    rule_matches-made_rule add_site no_flags (98 ∷ 46 ∷ 111 ∷ 47 ∷ []) no_xflags no_flags-IsPlain
      (unfold has_wildcard in refl) home b_object file
