-- ===== src/Filter/First.antt =====
-- exclude.c: a list of rules says what the first rule says that says something, in the order that merged lists and the
-- CVS list are gone through.
use rsync_wrapper.Prelude.{
  ◌≡◌, refl, ap, ◌∙◌, arith, if◌then◌else◌, Bool, true, false, ◌&&◌, ◌||◌, Bool-cases, inl, inr,
}
use rsync_wrapper.Prelude.{Bytes, List, [], ◌∷◌, ◌++◌, Result, ok, exit, stuck}
use rsync_wrapper.Prelude.Int.{ℤ, pos, negsuc}
use rsync_wrapper.Filter.{
  Site, FilterRule, Rules, no_rules, rule_then, NameFlags, unless_zero, verdict, check_rules,
  check_filter, is_excluded, list_excludes, FilterLists, name_is_excluded,
}
use rsync_wrapper.Filter.Meaning.{says, rule_matches_lem}

-- The rules that a list comes to, those of the CVS list in its place.
unfoldable pub flattened : Site → List FilterRule → Rules → List FilterRule
flattened site cvs no_rules = []
flattened site cvs (rule_then ent mergelist next) =
    if site.ignore_perishable && ent.rflags.perishable
    then flattened site cvs next
    else if ent.rflags.perdir_merge
    then flattened site cvs mergelist ++ flattened site cvs next
    else if ent.rflags.cvs_ignore
    then cvs ++ flattened site cvs next
    else ent ∷ flattened site cvs next

-- A rule of the list asks for the CVS list.
unfoldable pub asks_cvs : Rules → Bool
asks_cvs no_rules = false
asks_cvs (rule_then ent mergelist next) =
    ent.rflags.cvs_ignore || (asks_cvs mergelist || asks_cvs next)

module _ (site : Site) (name : Bytes) (name_flags : NameFlags) where
  -- The first rule that says something: 1 for include, -1 for exclude, and 0 for no such rule.
  unfoldable pub first_verdict : List FilterRule → ℤ
  first_verdict [] = pos 0
  first_verdict (ent ∷ rules) =
      if says site name ent name_flags
      then if ent.rflags.include then pos 1 else negsuc 0
      else first_verdict rules

  unless_zero-first_verdict :
      (r s : List FilterRule)
      → unless_zero (ok (first_verdict r)) (ok (first_verdict s)) ≡ ok (first_verdict (r ++ s))
  unfolding first_verdict unless_zero
  unless_zero-first_verdict [] s = refl
  unless_zero-first_verdict (ent ∷ r) s = elim (Bool-cases (says site name ent name_flags)) [
    | inl hit ↦ elim (Bool-cases ent.rflags.include) [
      | inl include ↦ rw (hit, include) refl
      | inr exclude ↦ rw (hit, exclude) refl
    ]
    | inr miss ↦ rw miss (unless_zero-first_verdict r s)
  ]

  check_rules_lem :
      (rc : Result ℤ) (cvs : List FilterRule) (list : Rules)
      → (asks_cvs list ≡ true → rc ≡ ok (first_verdict cvs))
      → check_rules site rc list name name_flags ≡ ok (first_verdict (flattened site cvs list))
  unfolding check_rules flattened asks_cvs first_verdict verdict
  check_rules_lem rc cvs no_rules h = refl
  check_rules_lem rc cvs (rule_then ent mergelist next) h =
      let rest = check_rules_lem rc cvs next (λ e. h ground arith) in
      let merged = check_rules_lem rc cvs mergelist (λ e. h ground arith) in
      elim (Bool-cases (site.ignore_perishable && ent.rflags.perishable)) [
        | inl skipped ↦ rw (check_rules, flattened, skipped) rest
        | inr kept ↦ elim (Bool-cases ent.rflags.perdir_merge) [
          | inl merges ↦
              rw (check_rules, flattened, kept, merges, merged, rest)
                (unless_zero-first_verdict (flattened site cvs mergelist) (flattened site cvs next))
          | inr single ↦ elim (Bool-cases ent.rflags.cvs_ignore) [
            | inl asks ↦
                rw (check_rules, flattened, kept, single, asks, h ground arith, rest)
                  (unless_zero-first_verdict cvs (flattened site cvs next))
            | inr plain ↦
                ground (arith, rest, kept, single, plain, rule_matches_lem site name ent name_flags)
          ]
        ]
      ]

  -- The CVS list and the lists that refer to it.
  all_rules : Rules → Rules → List FilterRule
  unfolding flattened
  all_rules cvs list = flattened site (flattened site [] cvs) list

  check_filter_lem :
      (cvs list : Rules)
      → asks_cvs cvs ≡ false
      → check_filter site cvs list name name_flags ≡ ok (first_verdict (all_rules cvs list))
  unfolding check_filter all_rules
  check_filter_lem cvs list h =
      let inner = check_rules_lem (exit stuck) [] cvs (λ e. absurd (ground arith)) in
      check_rules_lem (check_rules site (exit stuck) cvs name name_flags) (flattened site [] cvs)
        list (λ e. inner)

  -- The first rule of a list that says something excludes.
  unfoldable pub excludes : Rules → Rules → Bool
  unfolding all_rules first_verdict
  excludes cvs list = elim (first_verdict (all_rules cvs list)) [ pos n ↦ false | negsuc n ↦ true ]

  is_excluded_lem : (v : ℤ) → is_excluded (ok v) ≡ ok (elim v [ pos n ↦ false | negsuc n ↦ true ])
  unfolding is_excluded
  is_excluded_lem (pos n) = refl
  is_excluded_lem (negsuc n) = refl

  list_excludes_lem :
      (cvs list : Rules)
      → asks_cvs cvs ≡ false
      → list_excludes site cvs list name name_flags ≡ ok (excludes cvs list)
  unfolding list_excludes excludes
  list_excludes_lem cvs no_rules h = refl
  list_excludes_lem cvs (rule_then ent mergelist next) h =
      ap is_excluded (check_filter_lem cvs (rule_then ent mergelist next) h)
      ∙ is_excluded_lem (first_verdict (all_rules cvs (rule_then ent mergelist next)))

  -- If no rule of the CVS list asks for the CVS list, name_is_excluded ends for every name, and tells whether the
  -- first rule of the daemon's list that says something of the name excludes it, or that of the user's list where
  -- all filters are asked for. The lists are taken with the rules of merged files and of the CVS list in their
  -- places, and without perishable rules where these are ignored.
  pub name_is_excluded_lem :
      (lists : FilterLists) (all_filters : Bool)
      → asks_cvs lists.cvs ≡ false
      → name_is_excluded site lists name name_flags all_filters
        ≡ ok (excludes lists.cvs lists.daemon || all_filters && excludes lists.cvs lists.user)
  unfolding name_is_excluded
  name_is_excluded_lem lists all_filters h =
      ground (
        arith,
        list_excludes_lem lists.cvs lists.daemon h,
        list_excludes_lem lists.cvs lists.user h,
      )
