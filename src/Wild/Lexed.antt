-- ===== src/Wild/Lexed.antt =====
-- lib/wildmatch.c: a round of `dowild` compares with the first part of the pattern.
use rsync_wrapper.Prelude.{
  ℕ, zero, suc, ◌≤◌, ◌<◌, ◌≡◌, refl, ap, ◌∙◌, arith, ◌==◌, if◌then◌else◌, Bool, true, false, ◌&&◌,
  ◌||◌, Bool-cases, Option-cases, inl, inr, if_cases, length-drop,
}
use rsync_wrapper.Prelude.{Bytes, List, [], ◌∷◌, length, drop, get_or, Option, none, some, ok}
use rsync_wrapper.Wild.Class.{
  Item, Round, hit, to_bracket, colon_off, class_of, named_at, named_class, escaped, range_end,
  class_round, class_loop,
}
use rsync_wrapper.Wild.Glob.{class_items, any_hit}

-- Each round of a bracket moves on.
Moves : Option Round → ℕ → Type 0
Moves none n = Unit
Moves (some r) n = length r.rest < n

escaped-Moves : (f : ℕ → Item) (keep : Bool) (p : Bytes) → Moves (escaped f keep p) (length p)
unfolding escaped Moves
escaped-Moves f keep [] = tt
escaped-Moves f keep (c ∷ p) = omega arith

Moves-lt : (o : Option Round) (n k : ℕ) → Moves o n → n ≤ k → Moves o k
unfolding Moves
Moves-lt none n k m h = tt
Moves-lt (some r) n k m h = omega (arith, m)

range_end-Moves : (prev_ch : ℕ) (p : Bytes) → Moves (range_end prev_ch p) (length p)
unfolding range_end Moves
range_end-Moves prev_ch [] = tt
range_end-Moves prev_ch (c ∷ p) =
    if_cases (λ o. Moves o (suc (length p))) (c == 92) (escaped (Item.range prev_ch) false p)
      (some (record { item = Item.range prev_ch c; p_ch = 0; rest = p }))
      (λ e.
        Moves-lt (escaped (Item.range prev_ch) false p) (length p) (suc (length p))
          (escaped-Moves (Item.range prev_ch) false p) (omega arith))
      (λ e. omega arith)

to_bracket-le : (p : Bytes) → length (to_bracket p).1 ≤ length p
unfolding to_bracket
to_bracket-le [] = omega arith
to_bracket-le (c ∷ p) = ground (arith, to_bracket-le p)

named_at-Moves :
    (p name from : Bytes) → length from ≤ length p → Moves (named_at p name from) (suc (length p))
unfolding named_at Moves
named_at-Moves p name [] h = tt
named_at-Moves p name (c ∷ rest) h = elim (Option-cases (colon_off name)) [
  | inl plain ↦ rw (named_at, plain) (omega arith)
  | inr (s, class) ↦ elim (Option-cases (class_of s)) [
    | inl unknown ↦ rw (named_at, class, unknown) tt
    | inr (k, good) ↦ rw (named_at, class, good) (omega arith)
  ]
]

named_class-Moves : (p : Bytes) → Moves (named_class p) (suc (length p))
unfolding named_class
named_class-Moves p =
    named_at-Moves p (to_bracket (drop 1 p)).0 (to_bracket (drop 1 p)).1
      (omega (arith, to_bracket-le (drop 1 p), length-drop 1 p))

class_round-Moves : (prev_ch : ℕ) (p : Bytes) → Moves (class_round prev_ch p) (length p)
unfolding class_round
class_round-Moves prev_ch [] = unfold Moves in tt
class_round-Moves prev_ch (c ∷ p) =
    let sooner = λ (o : Option Round) (m : Moves o (length p)).
      Moves-lt o (length p) (suc (length p)) m (omega arith) in
    let last : Option Round = some (record { item = Item.one c; p_ch = c; rest = p }) in
    let go = if_cases (λ o. Moves o (suc (length p))) in
    let third : Option Round = (if c == 91 && get_or p 0 0 == 58 then named_class p else last) in
    go (c == 92) (escaped Item.one true p) _
      (λ e. sooner (escaped Item.one true p) (escaped-Moves Item.one true p))
      (λ e.
        go _ (range_end prev_ch p) third
          (λ e2. sooner (range_end prev_ch p) (range_end-Moves prev_ch p))
          (λ e2.
            go (c == 91 && get_or p 0 0 == 58) (named_class p) last (λ e3. named_class-Moves p)
              (λ e3. unfold Moves in omega arith)))

class_round-lt :
    (prev_ch : ℕ) (p : Bytes) (r : Round)
    → class_round prev_ch p ≡ some r
    → length r.rest < length p
class_round-lt prev_ch p r e = unfold Moves in rw e at (class_round-Moves prev_ch p)

-- The loop over a bracket finds whether one of its items is hit.
unfoldable pub after : ℕ → Bool → Option (List Item × Bytes) → Option (Bool × Bytes)
unfolding any_hit
after t matched none = none
after t matched (some (items, rest)) = some (matched || any_hit items t, rest)

with_item : Item → Option (List Item × Bytes) → Option (List Item × Bytes)
with_item i none = none
with_item i (some (items, rest)) = some (i ∷ items, rest)

after-with_item :
    (t : ℕ) (matched : Bool) (i : Item) (o : Option (List Item × Bytes))
    → after t (matched || hit i t) o ≡ after t matched (with_item i o)
unfolding after with_item any_hit
after-with_item t matched i none = refl
after-with_item t true i (some (items, rest)) = refl
after-with_item t false i (some (items, rest)) = refl

or_false : (b : Bool) → b ≡ (b || false)
or_false true = refl
or_false false = refl

after_one :
    (t : ℕ) (matched : Bool) (i : Item) (rest : Bytes)
    → some (matched || hit i t, rest) ≡ after t matched (some (i ∷ [], rest))
unfolding after any_hit
after_one t true i rest = refl
after_one t false i rest = ap (λ b. some (b, rest)) (or_false (hit i t))

pub class_loop_items :
    (fuel t prev_ch : ℕ) (matched : Bool) (p : Bytes)
    → length p < fuel
    → class_loop fuel t prev_ch matched p ≡ ok (after t matched (class_items fuel prev_ch p))
unfolding class_loop class_items with_item
class_loop_items zero t prev_ch matched p h = absurd (omega arith)
class_loop_items (suc fuel) t prev_ch matched p h = elim (Option-cases (class_round prev_ch p)) [
  | inl end ↦ rw (class_loop, class_items, end) (unfold after in refl)
  | inr (r, round) ↦ elim (Bool-cases (get_or r.rest 0 0 == 93)) [
    | inl closed ↦
        rw (class_loop, class_items, round, closed)
          (ap ok (after_one t matched r.item (drop 1 r.rest)))
    | inr further ↦
        rw (class_loop, class_items, round, further)
          (class_loop_items fuel t r.p_ch (matched || hit r.item t) r.rest
              (omega (arith, class_round-lt prev_ch p r round))
            ∙ ap ok (after-with_item t matched r.item (class_items fuel r.p_ch r.rest)))
  ]
]

-- What is left behind a bracket.
unfoldable pub Within : Option (List Item × Bytes) → ℕ → Type 0
Within none n = Unit
Within (some (items, rest)) n = length rest ≤ n

with_item-Within :
    (i : Item) (o : Option (List Item × Bytes)) (n k : ℕ)
    → Within o n
    → n ≤ k
    → Within (with_item i o) k
unfolding with_item Within
with_item-Within i none n k w h = tt
with_item-Within i (some (items, rest)) n k w h = omega (arith, w)

pub class_items-Within :
    (fuel prev_ch : ℕ) (p : Bytes) → Within (class_items fuel prev_ch p) (length p)
unfolding class_items with_item
class_items-Within zero prev_ch p = unfold Within in tt
class_items-Within (suc fuel) prev_ch p = elim (Option-cases (class_round prev_ch p)) [
  | inl end ↦ rw (class_items, end) (unfold Within in tt)
  | inr (r, round) ↦
      let moves = class_round-lt prev_ch p r round in
      elim (Bool-cases (get_or r.rest 0 0 == 93)) [
        | inl closed ↦
            rw (class_items, round, closed)
              (unfold Within in omega (arith, moves, length-drop 1 r.rest))
        | inr further ↦
            rw (class_items, round, further)
              (with_item-Within r.item (class_items fuel r.p_ch r.rest) (length r.rest) (length p)
                (class_items-Within fuel r.p_ch r.rest) (omega (arith, moves)))
      ]
]
