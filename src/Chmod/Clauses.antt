-- ===== src/Chmod/Clauses.antt =====
-- chmod.c: a list of changes is parsed change by change.
use rsync_wrapper.Prelude.{
  ℕ, ◌≡◌, refl, sym, ap, arith, true, false, Bytes, List, [], ◌∷◌, ◌++◌, append_assoc,
}
use rsync_wrapper.Prelude.{Option, none, some, Option-cases, Bool-cases, inl, inr, ◌==◌, ==_iff}
use rsync_wrapper.Chmod.{
  ChmodMode, Parser, fresh_parser, close, step, step_first, is_octal, prepend, parse_changes,
  parse_chmod, added,
}

-- Both parses, one behind the other; none if one of them fails.
unfoldable pub both : Option (List ChmodMode) → Option (List ChmodMode) → Option (List ChmodMode)
both none more = none
both (some modes) none = none
both (some modes) (some more) = some (modes ++ more)

prepend-both :
    (m : Option ChmodMode) (a b : Option (List ChmodMode))
    → prepend m (both a b) ≡ both (prepend m a) b
unfolding prepend both
prepend-both none a b = refl
prepend-both (some m) none b = refl
prepend-both (some m) (some a) none = refl
prepend-both (some m) (some a) (some b) = refl

-- The rounds of the loop: at a comma, and at another character.
parse_changes_comma :
    (umask : ℕ) (rest : Bytes) (c : Parser)
    → parse_changes umask false (44 ∷ rest) c
      ≡ prepend (close umask c) (parse_changes umask true rest fresh_parser)
unfolding parse_changes
parse_changes_comma umask rest c = refl

unfoldable after_step : ℕ → Bytes → Option Parser → Option (List ChmodMode)
after_step umask rest none = none
after_step umask rest (some c) = parse_changes umask false rest c

parse_changes_other :
    (umask ch : ℕ) (rest : Bytes) (c : Parser)
    → (ch == 44) ≡ false
    → parse_changes umask false (ch ∷ rest) c ≡ after_step umask rest (step ch c)
unfolding parse_changes after_step
parse_changes_other umask ch rest c e = ground (arith)

parse_changes_opened_any :
    (umask ch : ℕ) (rest : Bytes)
    → parse_changes umask true (ch ∷ rest) fresh_parser
      ≡ after_step umask rest (step ch fresh_parser)
unfolding parse_changes after_step
parse_changes_opened_any umask ch rest = elim (Option-cases (step ch fresh_parser)) [
  | inl bad ↦ ground arith
  | inr (c, good) ↦ ground arith
]

after_step-some :
    (umask : ℕ) (rest : Bytes) (c : Parser)
    → after_step umask rest (some c) ≡ parse_changes umask false rest c
unfolding after_step
after_step-some umask rest c = refl

-- No change starts with a comma, and none is empty.
step_comma : step 44 fresh_parser ≡ none
unfolding step step_first is_octal
step_comma = refl

close_fresh : (umask : ℕ) → close umask fresh_parser ≡ none
unfolding close
close_fresh umask = refl

parse_changes_opened :
    (umask : ℕ) (b : Bytes)
    → parse_changes umask true b fresh_parser ≡ parse_changes umask false b fresh_parser
parse_changes_opened umask [] = unfold parse_changes in refl
parse_changes_opened umask (ch ∷ b) = elim (Bool-cases (ch == 44)) [
  | inl comma ↦
      let e : ch ≡ 44 = (==_iff ch 44).0 comma in
      rw
        (
          e,
          parse_changes_opened_any umask 44 b,
          parse_changes_comma umask b fresh_parser,
          step_comma,
          close_fresh umask,
        )
        (unfold prepend after_step in refl)
  | inr other ↦
      rw (parse_changes_opened_any umask ch b, parse_changes_other umask ch b fresh_parser other)
        refl
]

prepend-single :
    (m : Option ChmodMode) (more : Option (List ChmodMode))
    → prepend m more ≡ both (prepend m (some [])) more
unfolding prepend both
prepend-single none more = refl
prepend-single (some m) none = refl
prepend-single (some m) (some more) = refl

parse_changes-append :
    (umask : ℕ) (a b : Bytes) (c : Parser)
    → parse_changes umask false (a ++ (44 ∷ b)) c
      ≡ both (parse_changes umask false a c) (parse_changes umask false b fresh_parser)
parse_changes-append umask [] b c =
    rw (parse_changes_comma umask b c, parse_changes_opened umask b)
      (unfold parse_changes in
        prepend-single (close umask c) (parse_changes umask false b fresh_parser))
parse_changes-append umask (ch ∷ a) b c = elim (Bool-cases (ch == 44)) [
  | inl comma ↦
      let e : ch ≡ 44 = (==_iff ch 44).0 comma in
      rw
        (
          e,
          parse_changes_comma umask (a ++ (44 ∷ b)) c,
          parse_changes_comma umask a c,
          parse_changes_opened umask (a ++ (44 ∷ b)),
          parse_changes_opened umask a,
          parse_changes-append umask a b fresh_parser,
        )
        (prepend-both (close umask c) (parse_changes umask false a fresh_parser)
          (parse_changes umask false b fresh_parser))
  | inr other ↦ elim (Option-cases (step ch c)) [
    | inl bad ↦
        rw
          (
            parse_changes_other umask ch (a ++ (44 ∷ b)) c other,
            parse_changes_other umask ch a c other,
            bad,
          )
          (unfold after_step both in refl)
    | inr (c', good) ↦
        rw
          (
            parse_changes_other umask ch (a ++ (44 ∷ b)) c other,
            parse_changes_other umask ch a c other,
            good,
            after_step-some umask (a ++ (44 ∷ b)) c',
            after_step-some umask a c',
          )
          (parse_changes-append umask a b c')
  ]
]

added-both :
    (root : List ChmodMode) (o more : Option (List ChmodMode))
    → added root (both o more) ≡ elim (added root o) [ none ↦ none | some modes ↦ added modes more ]
unfolding added both
added-both root none more = refl
added-both root (some modes) none = refl
added-both root (some modes) (some more) = ap some (sym (append_assoc root modes more))

-- Parsing two lists of changes with a comma between them is parsing the first and then, with the list that
-- this has made, the second: it fails if one of them fails, and otherwise appends the changes of both in
-- order. So the state of one change never leaks into the next.
pub parse_chmod-append :
    (umask : ℕ) (a b : Bytes) (root : List ChmodMode)
    → parse_chmod umask (a ++ (44 ∷ b)) root
      ≡ elim (parse_chmod umask a root) [ none ↦ none | some modes ↦ parse_chmod umask b modes ]
unfolding parse_chmod
parse_chmod-append umask a b root = rw (parse_changes-append umask a b fresh_parser) (
    added-both root (parse_changes umask false a fresh_parser)
      (parse_changes umask false b fresh_parser))
