-- ===== src/Wild/Steps.antt =====
-- lib/wildmatch.c: a round of `dowild` does with a character what the first part of the pattern says.
use rsync_wrapper.Prelude.{
  ℕ, suc, ◌+◌, ◌≤◌, ◌≡◌, refl, arith, ◌==◌, if◌then◌else◌, Bool, true, false, not, ◌||◌, Bool-cases,
  inl, inr, if_cases, length-drop,
}
use rsync_wrapper.Prelude.{Bytes, List, [], ◌∷◌, length, drop, Option, none, some, ok}
use rsync_wrapper.Wild.{
  no, yes, abort_all, abort_to_starstar, Step, stop, next, bracket_step, bracket, literal, escape,
  one_char,
}
use rsync_wrapper.Wild.Class.{Item, negated}
use rsync_wrapper.Wild.Glob.{
  Part, single, any, bad, star, set, class_items, items_part, set_part, escaped_part, first_part,
  any_hit, fits,
}
use rsync_wrapper.Wild.Lexed.{after, class_loop_items, Within, class_items-Within}

-- A part for one character, which matches a slash and nothing else, or no slash; and how much it leaves.
unfoldable pub IsPlain : Part × Bytes → ℕ → Type 0
unfolding fits
IsPlain (star special, rest) n = true ≡ false
IsPlain (k, rest) n =
    ((t : ℕ) → fits k t ≡ true → t == 47 ≡ false → fits k 47 ≡ false) × (length rest ≤ n)

pub IsPlain-slash :
    (k : Part) (rest : Bytes) (n t : ℕ)
    → IsPlain (k, rest) n
    → fits k t ≡ true
    → t == 47 ≡ false
    → fits k 47 ≡ false
unfolding IsPlain
IsPlain-slash (star special) rest n t h = absurd (ground arith)
IsPlain-slash (single c) rest n t h = h.0 t
IsPlain-slash any rest n t h = h.0 t
IsPlain-slash bad rest n t h = h.0 t
IsPlain-slash (set special items) rest n t h = h.0 t

pub IsPlain-le : (k : Part) (rest : Bytes) (n : ℕ) → IsPlain (k, rest) n → length rest ≤ n
unfolding IsPlain
IsPlain-le (star special) rest n h = absurd (ground arith)
IsPlain-le (single c) rest n h = h.1
IsPlain-le any rest n h = h.1
IsPlain-le bad rest n h = h.1
IsPlain-le (set special items) rest n h = h.1

-- What the switch comes to.
unfoldable pub StepRight : Part × Bytes → ℕ → Step → Type 0
unfolding fits
StepRight (k, rest) t (stop yes) = true ≡ false
StepRight (k, rest) t (stop no) = fits k t ≡ false
StepRight (k, rest) t (stop abort_all) = (u : ℕ) → fits k u ≡ false
StepRight (k, rest) t (stop abort_to_starstar) = true ≡ false
StepRight (k, rest) t (next p) = (p ≡ rest) × (fits k t ≡ true)

single-IsPlain : (c n : ℕ) (p : Bytes) → length p ≤ n → IsPlain (single c, p) n
unfolding IsPlain fits
single-IsPlain c n p h = (λ t e f. ground arith, h)

escaped_part-IsPlain : (p : Bytes) → IsPlain (escaped_part p) (length p)
unfolding escaped_part
escaped_part-IsPlain [] = unfold IsPlain fits in (λ t e f. refl, omega arith)
escaped_part-IsPlain (c ∷ p) = single-IsPlain c (suc (length p)) p (omega arith)

items_part-IsPlain :
    (special : Bool) (o : Option (List Item × Bytes)) (n k : ℕ)
    → Within o n
    → n ≤ k
    → IsPlain (items_part special o) k
unfolding items_part IsPlain fits Within
items_part-IsPlain special none n k w h = (λ t e f. refl, omega arith)
items_part-IsPlain special (some (items, rest)) n k w h = (λ t e f. ground arith, omega (arith, w))

set_part-IsPlain : (p : Bytes) → IsPlain (set_part p) (length p)
unfolding set_part
set_part-IsPlain p =
    let q = (if negated p then drop 1 p else p) in
    items_part-IsPlain (negated p) (class_items (length q + 1) 0 q) (length q) (length p)
      (class_items-Within (length q + 1) 0 q)
      (if_cases (λ (x : Bytes). length x ≤ length p) (negated p) (drop 1 p) p
        (λ e. omega (arith, length-drop 1 p)) (λ e. omega arith))

pub first_part-IsPlain : (c : ℕ) (p : Bytes) → c == 42 ≡ false → IsPlain (first_part c p) (length p)
unfolding first_part
first_part-IsPlain c p e =
    rw (first_part, e)
      (if_cases (λ o. IsPlain o (length p)) (c == 92) (escaped_part p)
        (if c == 63 then (any, p) else if c == 91 then set_part p else (single c, p))
        (λ e1. escaped_part-IsPlain p)
        (λ e1.
          if_cases (λ o. IsPlain o (length p)) (c == 63) (any, p)
            (if c == 91 then set_part p else (single c, p))
            (λ e2. unfold IsPlain fits in (λ t f g. refl, omega arith))
            (λ e2.
              if_cases (λ o. IsPlain o (length p)) (c == 91) (set_part p) (single c, p)
                (λ e3. set_part-IsPlain p) (λ e3. single-IsPlain c (length p) p (omega arith)))))

literal-StepRight : (c : ℕ) (p : Bytes) (t : ℕ) → StepRight (single c, p) t (literal c p t)
unfolding literal StepRight fits
literal-StepRight c p t =
    if_cases (StepRight (single c, p) t) (t == c) (next p) (stop no) (λ e. (refl, e)) (λ e. e)

escape-StepRight : (p : Bytes) (t : ℕ) → StepRight (escaped_part p) t (escape p t)
unfolding escape escaped_part
escape-StepRight [] t = unfold StepRight fits in refl
escape-StepRight (c ∷ p) t = literal-StepRight c p t

any-StepRight : (p : Bytes) (t : ℕ) → StepRight (any, p) t (if t == 47 then stop no else next p)
unfolding StepRight fits
any-StepRight p t =
    if_cases (StepRight (any, p) t) (t == 47) (stop no) (next p) (λ e. ground arith)
      (λ e. (refl, ground arith))

bracket_step-StepRight :
    (special : Bool) (o : Option (List Item × Bytes)) (t : ℕ)
    → StepRight (items_part special o) t (bracket_step special (after t false o) t)
unfolding bracket_step items_part after StepRight
bracket_step-StepRight special none t = λ u. unfold fits in refl
bracket_step-StepRight special (some (items, rest)) t =
    if_cases (StepRight (set special items, rest) t)
      ((if special then any_hit items t else not (any_hit items t)) || t == 47) (stop no)
      (next rest) (λ e. unfold fits in ground arith) (λ e. (refl, unfold fits in ground arith))

bracket-StepRight :
    (p : Bytes) (t : ℕ) → (st : Step) × (bracket p t ≡ ok st) × StepRight (set_part p) t st
unfolding bracket set_part
bracket-StepRight p t =
    let q = (if negated p then drop 1 p else p) in
    let o = class_items (length q + 1) 0 q in
    (
      bracket_step (negated p) (after t false o) t,
      rw (bracket, class_loop_items (length q + 1) t 0 false q (omega arith)) refl,
      bracket_step-StepRight (negated p) o t,
    )

pub one_char-StepRight :
    (c : ℕ) (p : Bytes) (t : ℕ)
    → c == 42 ≡ false
    → (st : Step) × (one_char c p t ≡ ok st) × StepRight (first_part c p) t st
unfolding one_char first_part
one_char-StepRight c p t e = elim (Bool-cases (c == 92)) [
  | inl e1 ↦ (escape p t, rw (one_char, e1) refl, rw (first_part, e, e1) (escape-StepRight p t))
  | inr e1 ↦ elim (Bool-cases (c == 63)) [
    | inl e2 ↦ (
      if t == 47 then stop no else next p,
      rw (one_char, e1, e2) refl,
      rw (first_part, e, e1, e2) (any-StepRight p t),
    )
    | inr e2 ↦ elim (Bool-cases (c == 91)) [
      | inl e3 ↦
          let (st, run, right) = bracket-StepRight p t in
          (st, rw (one_char, e1, e2, e3) run, rw (first_part, e, e1, e2, e3) right)
      | inr e3 ↦ (
        literal c p t,
        rw (one_char, e1, e2, e3) refl,
        rw (first_part, e, e1, e2, e3) (literal-StepRight c p t),
      )
    ]
  ]
]
