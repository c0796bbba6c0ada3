-- ===== src/Wild/Array.antt =====
-- lib/wildmatch.c: `wildmatch`, `iwildmatch` and `wildmatch_array` find what the pattern means.
use rsync_wrapper.Prelude.{
  ◌+◌, ◌≡◌, refl, sym, ap, ◌∙◌, arith, ◌==◌, Bool, true, false, ◌&&◌, ◌||◌, Bool-cases,
  Option-cases, inl, inr,
}
use rsync_wrapper.Prelude.{Bytes, List, [], ◌∷◌, ◌++◌, length, Option, none, some, ok, append-nil}
use rsync_wrapper.Prelude.Int.{ℤ}
use rsync_wrapper.Literal.Laws.{joined}
use rsync_wrapper.Wild.{
  Verdict, no, yes, abort_all, abort_to_starstar, is_true, run_wild, as_bool, wildmatch, iwildmatch,
  ends_search, slash_loop, array_loop, start_text, is_negative, wildmatch_array,
}
use rsync_wrapper.Wild.Glob.{somewhere, matches}
use rsync_wrapper.Wild.Verdicts.{Right, somewhere-false}
use rsync_wrapper.Wild.Search.{dowild-Right}

pub run_wild-Right :
    (fold : Bool) (p text : Bytes) (a : List Bytes)
    → (v : Verdict) × (run_wild fold p text a ≡ ok v)
      × Right v (λ s. matches fold p s) (text ++ joined a)
unfolding run_wild matches
run_wild-Right fold p text a = dowild-Right fold (length p + 1) p text a (omega arith)

Right-is_true : (v : Verdict) (m : Bytes → Bool) (s : Bytes) → Right v m s → is_true v ≡ m s
unfolding Right is_true
Right-is_true yes m s r = sym r
Right-is_true no m s r = sym r
Right-is_true abort_all m s r = sym (somewhere-false m true s r)
Right-is_true abort_to_starstar m s r = sym (somewhere-false m false s r)

as_bool_lem :
    (fold : Bool) (p text : Bytes) → as_bool (run_wild fold p text []) ≡ ok (matches fold p text)
unfolding as_bool
as_bool_lem fold p text =
    let (v, run, right) = run_wild-Right fold p text [] in
    rw (as_bool, run)
      (ap ok (
        Right-is_true v (λ s. matches fold p s) (text ++ joined []) right
        ∙ ap (matches fold p) (unfold joined in append-nil text)))

-- For every pattern and text the search ends, and tells whether the text, with upper case letters made lower for
-- `iwildmatch`, is matched by the parts of the pattern one after the other: the abandoned tries of its stars
-- lose no match.
pub wildmatch_lem :
    (pattern text : Bytes)
    → (wildmatch pattern text ≡ ok (matches false pattern text))
      × (iwildmatch pattern text ≡ ok (matches true pattern text))
unfolding wildmatch iwildmatch
wildmatch_lem pattern text = (as_bool_lem false pattern text, as_bool_lem true pattern text)

-- A match behind one of the slashes.
unfoldable pub behind_slash : (Bytes → Bool) → Bytes → Bool
behind_slash m [] = false
behind_slash m (c ∷ s) = c == 47 && m s || behind_slash m s

-- What is matched, by where the search starts: the whole of it, or also what is behind a slash.
unfoldable pub array_matches : Bytes → Bool → Option (Bytes × List Bytes) → Bool
unfolding behind_slash matches joined
array_matches p anywhere none = false
array_matches p anywhere (some (text, a)) =
    matches false p (text ++ joined a)
    || anywhere && behind_slash (λ s. matches false p s) (text ++ joined a)

nowhere-behind_slash :
    (m : Bytes → Bool) (s : Bytes) → somewhere true m s ≡ false → behind_slash m s ≡ false
unfolding somewhere behind_slash
nowhere-behind_slash m [] e = refl
nowhere-behind_slash m (c ∷ s) e =
    ground (arith, nowhere-behind_slash m s, somewhere-false m true s)

ended-behind_slash :
    (v : Verdict) (m : Bytes → Bool) (s : Bytes)
    → ends_search v ≡ true
    → Right v m s
    → is_true v ≡ (m s || behind_slash m s)
unfolding ends_search Right is_true
ended-behind_slash yes m s e r = rw r refl
ended-behind_slash no m s e r = absurd (ground arith)
ended-behind_slash abort_all m s e r =
    rw (somewhere-false m true s r, nowhere-behind_slash m s r) refl
ended-behind_slash abort_to_starstar m s e r = absurd (ground arith)

going_on :
    (v : Verdict) (m : Bytes → Bool) (s : Bytes) → ends_search v ≡ false → Right v m s → m s ≡ false
unfolding ends_search Right
going_on yes m s e r = absurd (ground arith)
going_on no m s e r = r
going_on abort_all m s e r = absurd (ground arith)
going_on abort_to_starstar m s e r = somewhere-false m false s r

slash_loop_lem :
    (p text : Bytes) (a : List Bytes)
    → slash_loop p text a ≡ ok (behind_slash (λ s. matches false p s) (text ++ joined a))
unfolding slash_loop joined behind_slash
slash_loop_lem p [] [] = refl
slash_loop_lem p [] (s ∷ a) = slash_loop_lem p s a
slash_loop_lem p (c ∷ text) a =
    let (v, run, right) = run_wild-Right false p text a in
    let rest = slash_loop_lem p text a in
    elim (Bool-cases (c == 47)) [
      | inl slash ↦ elim (Bool-cases (ends_search v)) [
        | inl end ↦
            rw (slash_loop, slash, run, end)
              (ap ok (ended-behind_slash v (λ s. matches false p s) (text ++ joined a) end right))
        | inr on ↦
            rw
              (
                slash_loop,
                slash,
                run,
                on,
                going_on v (λ s. matches false p s) (text ++ joined a) on right,
              )
              rest
      ]
      | inr other ↦ rw (slash_loop, other) rest
    ]

or_false : (b : Bool) → b ≡ (b || false)
or_false true = refl
or_false false = refl

array_loop_lem :
    (p text : Bytes) (a : List Bytes) (anywhere : Bool)
    → array_loop p text a anywhere ≡ ok (array_matches p anywhere (some (text, a)))
unfolding array_loop array_matches
array_loop_lem p text a false =
    let (v, run, right) = run_wild-Right false p text a in
    rw (array_loop, run)
      (ap ok (
        Right-is_true v (λ s. matches false p s) (text ++ joined a) right
        ∙ or_false (matches false p (text ++ joined a))))
array_loop_lem p text a true =
    let (v, run, right) = run_wild-Right false p text a in
    elim (Bool-cases (ends_search v)) [
      | inl end ↦
          rw (array_loop, run, end)
            (ap ok (ended-behind_slash v (λ s. matches false p s) (text ++ joined a) end right))
      | inr on ↦
          rw (array_loop, run, on, going_on v (λ s. matches false p s) (text ++ joined a) on right)
            (slash_loop_lem p text a)
    ]

-- For every pattern, array of strings and `where` the search ends. It tells whether the strings joined, from
-- the place on that `where` gives, are matched by the pattern, or for a negative `where` whether they are
-- matched from their start or from behind one of their slashes. Without such a place there is no match.
pub wildmatch_array_lem :
    (pattern : Bytes) (texts : List Bytes) (place : ℤ)
    → wildmatch_array pattern texts place
      ≡ ok (array_matches pattern (is_negative place) (start_text texts place))
unfolding wildmatch_array
wildmatch_array_lem pattern texts place = elim (Option-cases (start_text texts place)) [
  | inl nothing ↦ rw (wildmatch_array, nothing) (unfold array_matches in refl)
  | inr ((text, a), found) ↦
      rw (wildmatch_array, found) (array_loop_lem pattern text a (is_negative place))
]
