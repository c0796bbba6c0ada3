-- ===== src/Wild/Glob.antt =====
-- lib/wildmatch.c: what a pattern means, apart from the search: its parts in order, and the strings that they
-- match. Characters are compared after folding, as in `dowild`.
use rsync_wrapper.Prelude.{
  ℕ, zero, suc, ◌+◌, ◌==◌, if◌then◌else◌, Bool, true, false, not, ◌&&◌, ◌||◌,
}
use rsync_wrapper.Prelude.{Bytes, List, [], ◌∷◌, length, drop, get_or, Option, none, some}
use rsync_wrapper.Wild.{folded, is_special, skip_stars}
use rsync_wrapper.Wild.Class.{Item, hit, class_round, negated}

-- A part of a pattern. `bad` is one that matches nothing.
pub data Part : Type 0 where
  single : ℕ → Part
  any bad : Part
  star : (special : Bool) → Part
  set : (special : Bool) → List Item → Part

-- The items of a bracket, and the pattern behind it.
unfoldable pub class_items : ℕ → ℕ → Bytes → Option (List Item × Bytes)
unfolding class_round
class_items zero prev_ch p = none
class_items (suc fuel) prev_ch p = elim (class_round prev_ch p) [
  | none ↦ none
  | some r ↦ elim (get_or r.rest 0 0 == 93) [
    | true ↦ some (r.item ∷ [], drop 1 r.rest)
    | false ↦ elim (class_items fuel r.p_ch r.rest) [
      | none ↦ none
      | some (items, rest) ↦ some (r.item ∷ items, rest)
    ]
  ]
]

unfoldable pub items_part : Bool → Option (List Item × Bytes) → Part × Bytes
items_part special none = (bad, [])
items_part special (some (items, rest)) = (set special items, rest)

unfoldable pub set_part : Bytes → Part × Bytes
unfolding class_items negated items_part
set_part p =
    let q = (if negated p then drop 1 p else p) in
    items_part (negated p) (class_items (length q + 1) 0 q)

unfoldable pub escaped_part : Bytes → Part × Bytes
escaped_part [] = (bad, [])
escaped_part (c ∷ p) = (single c, p)

-- The first part of a pattern that starts with `c`, and the pattern behind it.
unfoldable pub first_part : ℕ → Bytes → Part × Bytes
unfolding set_part escaped_part is_special skip_stars
first_part c p =
    if c == 42
    then (star (is_special p), skip_stars p)
    else if c == 92
    then escaped_part p
    else if c == 63
    then (any, p)
    else if c == 91
    then set_part p
    else (single c, p)

unfoldable pub parts : ℕ → Bytes → List Part
unfolding first_part
parts zero p = []
parts (suc fuel) [] = []
parts (suc fuel) (c ∷ p) = (first_part c p).0 ∷ parts fuel (first_part c p).1

unfoldable pub any_hit : List Item → ℕ → Bool
unfolding hit
any_hit [] t = false
any_hit (i ∷ items) t = hit i t || any_hit items t

-- Whether a part that is not a star matches a character.
unfoldable pub fits : Part → ℕ → Bool
unfolding any_hit
fits (single c) t = t == c
fits any t = not (t == 47)
fits bad t = false
fits (star special) t = false
fits (set special items) t =
    (if special then not (any_hit items t) else any_hit items t) && not (t == 47)

-- A star leaves out characters, without `special` none that is a slash, and the rest is matched.
unfoldable pub somewhere : Bool → (Bytes → Bool) → Bytes → Bool
somewhere special m [] = m []
somewhere special m (t ∷ s) = m (t ∷ s) || (special || not (t == 47)) && somewhere special m s

unfoldable pub one_then : (ℕ → Bool) → (Bytes → Bool) → Bytes → Bool
one_then f m [] = false
one_then f m (t ∷ s) = f t && m s

unfoldable pub is_empty : Bytes → Bool
is_empty [] = true
is_empty (t ∷ s) = false

unfoldable pub part_then : Bool → Part → (Bytes → Bool) → Bytes → Bool
unfolding somewhere one_then fits folded
part_then fold (star special) m s = somewhere special m s
part_then fold k m s = one_then (λ t. fits k (folded fold t)) m s

unfoldable pub glob : Bool → List Part → Bytes → Bool
unfolding part_then is_empty
glob fold [] s = is_empty s
glob fold (k ∷ ks) s = part_then fold k (λ r. glob fold ks r) s

-- Whether a string matches a pattern.
unfoldable pub matches : Bool → Bytes → Bytes → Bool
unfolding glob parts
matches fold p s = glob fold (parts (length p + 1) p) s
