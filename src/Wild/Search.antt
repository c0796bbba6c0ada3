-- ===== src/Wild/Search.antt =====
-- lib/wildmatch.c: `dowild` ends, and its verdict is right about what the pattern means.
use rsync_wrapper.Prelude.{
  ℕ, zero, suc, ◌≤◌, ◌<◌, ◌≡◌, refl, sym, ap, ◌∙◌, arith, ◌==◌, if◌then◌else◌, Bool, true, false,
  not, ◌||◌, Bool-cases, inl, inr, ◌⊎◌, if_cases,
}
use rsync_wrapper.Prelude.{Bytes, List, [], ◌∷◌, ◌++◌, length, Result, ok, append-nil}
use rsync_wrapper.Literal.{all_empty}
use rsync_wrapper.Literal.Laws.{joined}
use rsync_wrapper.Wild.Class.{between}
use rsync_wrapper.Wild.{
  Verdict, no, yes, abort_all, abort_to_starstar, Step, stop, next, folded, fetch, one_char,
  has_slash, any_slash, is_special, skip_stars, star_case, dowild,
}
use rsync_wrapper.Wild.Glob.{
  Part, single, any, bad, star, set, first_part, parts, fits, somewhere, one_then, is_empty,
  part_then, glob,
}
use rsync_wrapper.Wild.Verdicts.{
  Right, one_then-all, one_then-slash, one_then-never, star_loop-Right,
}
use rsync_wrapper.Wild.Steps.{
  IsPlain, IsPlain-slash, IsPlain-le, StepRight, first_part-IsPlain, one_char-StepRight,
}

fetch_whole :
    (text : Bytes) (a : List Bytes) → (fetch text a).0 ++ joined (fetch text a).1 ≡ text ++ joined a
unfolding fetch joined
fetch_whole [] [] = refl
fetch_whole [] (s ∷ a) = fetch_whole s a
fetch_whole (t ∷ text) a = refl

fetch_end : (text : Bytes) (a : List Bytes) → (fetch text a).0 ≡ [] → joined (fetch text a).1 ≡ []
unfolding fetch joined
fetch_end [] [] e = refl
fetch_end [] (s ∷ a) e = fetch_end s a e
fetch_end (t ∷ text) a e = absurd (ground arith)

all_empty-is_empty :
    (text : Bytes) (a : List Bytes) → all_empty text a ≡ is_empty (text ++ joined a)
unfolding all_empty joined is_empty
all_empty-is_empty [] [] = refl
all_empty-is_empty [] (s ∷ a) = all_empty-is_empty s a
all_empty-is_empty (t ∷ text) a = refl

has_slash-append : (x y : Bytes) → has_slash (x ++ y) ≡ (has_slash x || has_slash y)
unfolding has_slash
has_slash-append [] y = refl
has_slash-append (c ∷ x) y = ground (arith, has_slash-append x y)

any_slash-joined : (text : Bytes) (a : List Bytes) → any_slash text a ≡ has_slash (text ++ joined a)
unfolding any_slash joined
any_slash-joined text [] = ap has_slash (sym (append-nil text))
any_slash-joined text (s ∷ a) =
    ap (λ b. has_slash text || b) (any_slash-joined s a)
    ∙ sym (has_slash-append text (s ++ joined a))

somewhere-is_empty : (s : Bytes) → somewhere true is_empty s ≡ true
unfolding somewhere is_empty
somewhere-is_empty [] = refl
somewhere-is_empty (t ∷ s) = somewhere-is_empty s

somewhere-has_slash : (s : Bytes) → somewhere false is_empty s ≡ not (has_slash s)
unfolding somewhere is_empty has_slash
somewhere-has_slash [] = refl
somewhere-has_slash (t ∷ s) = ground (arith, somewhere-has_slash s)

folded_slash : (fold : Bool) (t : ℕ) → t == 47 ≡ false → folded fold t == 47 ≡ false
unfolding folded between
folded_slash fold t e = ground arith

folded_same : (fold : Bool) → folded fold 47 ≡ 47
unfolding folded between
folded_same true = refl
folded_same false = refl

module _ (fold : Bool) (m : Bytes → Bool) (rest : Bytes) (n : ℕ) where
  abbrev plain : Part → Bytes → Bool
  unfolding one_then fits folded
  plain k s = one_then (λ t. fits k (folded fold t)) m s

  -- A part that is no star is one character and the rest.
  Right-plain :
      (k : Part) (v : Verdict) (s : Bytes)
      → IsPlain (k, rest) n
      → Right v (plain k) s
      → Right v (λ r. part_then fold k m r) s
  unfolding part_then IsPlain
  Right-plain (star special) v s h r = absurd (ground arith)
  Right-plain (single c) v s h r = r
  Right-plain any v s h r = r
  Right-plain bad v s h r = r
  Right-plain (set special items) v s h r = r

  -- The verdict on the rest, one character further.
  Right-next :
      (k : Part) (v : Verdict) (t : ℕ) (s : Bytes)
      → IsPlain (k, rest) n
      → fits k (folded fold t) ≡ true
      → Right v m s
      → Right v (plain k) (t ∷ s)
  unfolding Right one_then plain
  Right-next k yes t s h f r = rw (f, r) refl
  Right-next k no t s h f r = rw (f, r) refl
  Right-next k abort_all t s h f r = one_then-all m (λ u. fits k (folded fold u)) t s r
  Right-next k abort_to_starstar t s h f r =
      one_then-slash m (λ u. fits k (folded fold u)) t s
        (λ e.
          ap (fits k) (folded_same fold)
          ∙ IsPlain-slash k rest n (folded fold t) h f (folded_slash fold t e))
        r

  Right-stop :
      (k : Part) (v : Verdict) (t : ℕ) (s : Bytes)
      → IsPlain (k, rest) n
      → StepRight (k, rest) (folded fold t) (stop v)
      → Right v (plain k) (t ∷ s)
  unfolding Right one_then StepRight plain
  Right-stop k yes t s h r = absurd (ground arith)
  Right-stop k no t s h r = rw r refl
  Right-stop k abort_all t s h r =
      one_then-never m (λ u. fits k (folded fold u)) (t ∷ s) (λ u. r (folded fold u))
  Right-stop k abort_to_starstar t s h r = absurd (ground arith)

  -- At the end of the text.
  Right-end : (k : Part) → IsPlain (k, rest) n → Right abort_all (λ r. part_then fold k m r) []
  unfolding Right somewhere plain
  Right-end k h = Right-plain k abort_all [] h (unfold one_then in refl)

  -- Behind a star the pattern starts with such a part, which wants a character.
  plain_empty : (k : Part) → IsPlain (k, rest) n → part_then fold k m [] ≡ false
  unfolding Right somewhere
  plain_empty k h = Right-end k h

skip_stars-le : (p : Bytes) → length (skip_stars p) ≤ length p
unfolding skip_stars
skip_stars-le [] = omega arith
skip_stars-le (c ∷ p) = ground (arith, skip_stars-le p)

skip_stars_head : (p q : Bytes) (c : ℕ) → skip_stars p ≡ c ∷ q → c == 42 ≡ false
unfolding skip_stars
skip_stars_head [] q c e = absurd (ground arith)
skip_stars_head (d ∷ p) q c e = elim (Bool-cases (d == 42)) [
  | inl again ↦ skip_stars_head p q c (rw again at e)
  | inr other ↦ ground arith
]

parts_nil : (fuel : ℕ) → parts fuel [] ≡ []
unfolding parts
parts_nil zero = refl
parts_nil (suc fuel) = refl

glob_empty :
    (fold : Bool) (fuel c : ℕ) (p : Bytes)
    → c == 42 ≡ false
    → 0 < fuel
    → glob fold (parts fuel (c ∷ p)) [] ≡ false
unfolding parts glob
glob_empty fold zero c p e h = absurd (omega arith)
glob_empty fold (suc fuel) c p e h =
    plain_empty fold (λ r. glob fold (parts fuel (first_part c p).1) r) (first_part c p).1
      (length p) (first_part c p).0 (first_part-IsPlain c p e)

length_nil : (q : Bytes) → length q == 0 ≡ true → q ≡ []
length_nil [] e = refl
length_nil (c ∷ q) e = absurd (ground arith)

length_cons : (q : Bytes) → length q == 0 ≡ false → (c : ℕ) × (r : Bytes) × (q ≡ c ∷ r)
length_cons [] e = absurd (ground arith)
length_cons (c ∷ q) e = (c, q, refl)

-- A star at the end of the pattern.
star_end :
    (fold : Bool) (fuel : ℕ) (special : Bool) (text : Bytes) (a : List Bytes)
    → Right
        (if special then yes else if any_slash text a then no else yes)
        (λ r. somewhere special (λ x. glob fold (parts fuel []) x) r)
        (text ++ joined a)
unfolding Right glob
star_end fold fuel true text a = rw (parts_nil fuel) (somewhere-is_empty (text ++ joined a))
star_end fold fuel false text a =
    let slash = any_slash-joined text a in
    let here = somewhere-has_slash (text ++ joined a) in
    rw (parts_nil fuel) (
      if_cases (λ v. Right v (λ r. somewhere false is_empty r) (text ++ joined a))
        (any_slash text a) no yes (λ e. here ∙ ap not (sym slash ∙ e))
        (λ e. here ∙ ap not (sym slash ∙ e)))

skip_stars-empty :
    (fold : Bool) (fuel : ℕ) (p : Bytes)
    → 0 < fuel
    → length (skip_stars p) == 0 ≡ false
    → glob fold (parts fuel (skip_stars p)) [] ≡ false
skip_stars-empty fold fuel p pos e =
    let (c, q, same) = length_cons (skip_stars p) e in
    rw same (glob_empty fold fuel c q (skip_stars_head p q c same) pos)

-- A star, with the matcher for what is behind it.
star_case-Right :
    (fold : Bool) (fuel : ℕ) (p : Bytes) (matches : Bytes → Bytes → List Bytes → Result Verdict)
    → 0 < fuel
    → ((text : Bytes) (a : List Bytes)
        → (v : Verdict) × (matches (skip_stars p) text a ≡ ok v)
          × Right v (λ r. glob fold (parts fuel (skip_stars p)) r) (text ++ joined a))
    → (text : Bytes) (a : List Bytes)
    → (v : Verdict) × (star_case matches p text a ≡ ok v)
      × Right v
          (λ r. somewhere (is_special p) (λ x. glob fold (parts fuel (skip_stars p)) x) r)
          (text ++ joined a)
unfolding star_case
star_case-Right fold fuel p matches pos h text a = elim (Bool-cases (length (skip_stars p) == 0)) [
  | inl end ↦ (
    if is_special p then yes else if any_slash text a then no else yes,
    rw (star_case, end) refl,
    rw (length_nil (skip_stars p) end) (star_end fold fuel (is_special p) text a),
  )
  | inr more ↦
      let (v, run, right) =
        star_loop-Right (λ r. glob fold (parts fuel (skip_stars p)) r) (is_special p)
          (matches (skip_stars p)) h (skip_stars-empty fold fuel p pos more) text a in
      (v, rw (star_case, more) run, right)
]

star_meaning :
    (fold : Bool) (fuel c : ℕ) (p text : Bytes) (a : List Bytes) (v : Verdict)
    → c == 42 ≡ true
    → Right v
        (λ r. somewhere (is_special p) (λ x. glob fold (parts fuel (skip_stars p)) x) r)
        ((fetch text a).0 ++ joined (fetch text a).1)
    → Right v (λ r. glob fold (parts (suc fuel) (c ∷ p)) r) (text ++ joined a)
unfolding parts glob part_then
star_meaning fold fuel c p text a v at right =
    let lexed : first_part c p ≡ (star (is_special p), skip_stars p) = rw (first_part, at) refl in
    rw lexed (rw (fetch_whole text a) at right)

-- One round with another part.
module _ (fold : Bool) (fuel c : ℕ) (p : Bytes) (e : c == 42 ≡ false) (text : Bytes)
    (a : List Bytes) where
  abbrev behind : Bytes → Bool
  unfolding glob parts
  behind r = glob fold (parts fuel (first_part c p).1) r

  Ends : Type 0
  unfolding Right glob parts
  Ends =
      (v : Verdict) × (dowild (suc fuel) fold (c ∷ p) text a ≡ ok v)
      × Right v (λ r. glob fold (parts (suc fuel) (c ∷ p)) r) (text ++ joined a)

  Right-round :
      (v : Verdict) (s : Bytes)
      → text ++ joined a ≡ s
      → Right v (plain fold behind (first_part c p).1 (length p) (first_part c p).0) s
      → Right v (λ r. glob fold (parts (suc fuel) (c ∷ p)) r) (text ++ joined a)
  unfolding glob parts behind
  Right-round v s same right = rw same (
      Right-plain fold behind (first_part c p).1 (length p) (first_part c p).0 v s
        (first_part-IsPlain c p e) right)

  round_end : (fetch text a).0 ≡ [] → Ends
  unfolding Ends dowild
  round_end n = (
    abort_all,
    rw (dowild, e, n) refl,
    Right-round abort_all []
        (sym (fetch_whole text a)
          ∙ ap (λ (x : Bytes). x ++ joined (fetch text a).1) n
          ∙ fetch_end text a n)
        (unfold Right somewhere plain one_then in refl),
  )

  module _ (t : ℕ) (now : Bytes) (n : (fetch text a).0 ≡ t ∷ now) where
    at_char : text ++ joined a ≡ t ∷ (now ++ joined (fetch text a).1)
    at_char = sym (fetch_whole text a) ∙ ap (λ (x : Bytes). x ++ joined (fetch text a).1) n

    round_char :
        (st : Step)
        → one_char c p (folded fold t) ≡ ok st
        → StepRight (first_part c p) (folded fold t) st
        → ((q : Bytes) (b : Bytes)
            → length q ≤ length p
            → (v : Verdict) × (dowild fuel fold q b (fetch text a).1 ≡ ok v)
              × Right v (λ r. glob fold (parts fuel q) r) (b ++ joined (fetch text a).1))
        → Ends
    unfolding Ends behind dowild StepRight
    round_char (stop v) run right h = (
      v,
      rw (dowild, e, n, run) refl,
      Right-round v (t ∷ (now ++ joined (fetch text a).1)) at_char (
          Right-stop fold behind (first_part c p).1 (length p) (first_part c p).0 v t
            (now ++ joined (fetch text a).1) (first_part-IsPlain c p e) right),
    )
    round_char (next q) run (same, fit) h =
        let (v, run', right) = h (first_part c p).1 now (
          IsPlain-le (first_part c p).0 (first_part c p).1 (length p) (first_part-IsPlain c p e)) in
        (
          v,
          rw (dowild, e, n, run, same) run',
          Right-round v (t ∷ (now ++ joined (fetch text a).1)) at_char (
              Right-next fold behind (first_part c p).1 (length p) (first_part c p).0 v t
                (now ++ joined (fetch text a).1) (first_part-IsPlain c p e) fit right),
        )

list_cases : (s : Bytes) → (s ≡ []) ⊎ ((c : ℕ) × (r : Bytes) × (s ≡ c ∷ r))
list_cases [] = inl refl
list_cases (c ∷ r) = inr (c, r, refl)

-- `dowild` ends and is right.
pub dowild-Right :
    (fold : Bool) (fuel : ℕ) (p text : Bytes) (a : List Bytes)
    → length p < fuel
    → (v : Verdict) × (dowild fuel fold p text a ≡ ok v)
      × Right v (λ r. glob fold (parts fuel p) r) (text ++ joined a)
unfolding dowild Ends
dowild-Right fold zero p text a l = absurd (omega arith)
dowild-Right fold (suc fuel) [] text a l =
    let ends = all_empty-is_empty text a in
    (
      if all_empty text a then yes else no,
      refl,
      if_cases (λ v. Right v (λ r. glob fold (parts (suc fuel) []) r) (text ++ joined a))
          (all_empty text a) yes no (λ e. unfold Right parts glob in sym ends ∙ e)
          (λ e. unfold Right parts glob in sym ends ∙ e),
    )
dowild-Right fold (suc fuel) (c ∷ p) text a l = elim (Bool-cases (c == 42)) [
  | inl at ↦
      let (v, run, right) =
        star_case-Right fold fuel p (λ q. dowild fuel fold q) (omega arith)
          (λ x b. dowild-Right fold fuel (skip_stars p) x b (omega (arith, skip_stars-le p)))
          (fetch text a).0 (fetch text a).1 in
      (v, rw (dowild, at) run, star_meaning fold fuel c p text a v at right)
  | inr other ↦ elim (list_cases (fetch text a).0) [
    | inl n ↦ round_end fold fuel c p other text a n
    | inr (t, now, n) ↦
        let (st, run, right) = one_char-StepRight c p (folded fold t) other in
        round_char fold fuel c p other text a t now n st run right
          (λ q b le. dowild-Right fold fuel q b (fetch text a).1 (omega (arith, le)))
  ]
]
